-- ===== src/Pkcs7/Blocks.antt =====
-- pkcs7/pkcs7.go: the loop of `ParseSignedData` ends, and what its blocks are; the certificates of
-- `ExtractCertificates` in order.
use certigo.Base.{
  ℕ, zero, suc, ◌≤◌, ◌<◌, List, [], ◌∷◌, ◌++◌, ◌≡◌, refl, sym, ap, ◌∙◌, Option, none, some, Bytes,
  length, length-append, bytes_eq_iff, Result, Result-cases, value, error, true, inl, inr, arith,
  append-nil, append_assoc, All,
}
use certigo.Base.Int.{ℤ, pos, negsuc}
use certigo.Pkcs7.{
  SignedDataEnvelope, Error, Parsed, signed_data_identifier, is_one, accept_block, parse_block,
  parse_blocks, parse_signed_data,
}

abbrev pub Unmarshal : Type 0
Unmarshal = Bytes → Result Bytes (SignedDataEnvelope × Bytes)

-- The raw content of what was unmarshalled, and what stands behind it, make up the input; there is
-- no structure of no bytes.
pub record Splits (unmarshal : Unmarshal) : Type 0 where
  pub input_is :
      (bytes : Bytes) (e : SignedDataEnvelope) (rest : Bytes)
      → unmarshal bytes ≡ value (e, rest)
      → bytes ≡ e.raw ++ rest
  pub raw-ne-nil :
      (bytes : Bytes) (e : SignedDataEnvelope) (rest : Bytes)
      → unmarshal bytes ≡ value (e, rest)
      → 0 < length e.raw

-- Signed data, version 1.
abbrev pub IsSignedData : SignedDataEnvelope → Type 0
IsSignedData e = (e.oid ≡ signed_data_identifier) × (e.version ≡ pos 1)

unfoldable pub raws : List SignedDataEnvelope → Bytes
raws [] = []
raws (e ∷ es) = e.raw ++ raws es

pub raws-append : (xs ys : List SignedDataEnvelope) → raws (xs ++ ys) ≡ raws xs ++ raws ys
unfolding raws
raws-append [] ys = refl
raws-append (x ∷ xs) ys = rw (raws-append xs ys, append_assoc)

raws-concat :
    (out : List SignedDataEnvelope) (e : SignedDataEnvelope) (rest : Bytes)
    → raws out ++ (e.raw ++ rest) ≡ raws (out ++ e ∷ []) ++ rest
unfolding raws
raws-concat out e rest =
    sym (append_assoc (raws out) e.raw rest)
    ∙ ap (λ t. (raws out ++ t) ++ rest) (sym (append-nil e.raw))
    ∙ ap (λ t. t ++ rest) (sym (raws-append out (e ∷ [])))

-- The blocks stand at the front of the input, one behind the other. With no error they are all of
-- it; with an error the next block, at what is left, is the one that has it.
abbrev LeftOver : Unmarshal → Bytes → Option Error → Type 0
LeftOver unmarshal left none = left ≡ []
LeftOver unmarshal left (some e) = parse_block unmarshal left ≡ error e

pub record Accounts (unmarshal : Unmarshal) (input : Bytes) (p : Parsed) : Type 0 where
  pub left : Bytes
  pub splits : input ≡ raws p.blocks ++ left
  pub left_over : LeftOver unmarshal left p.failure
  pub are_signed : All IsSignedData p.blocks

is_one→pos : (v : ℤ) → is_one v ≡ true → v ≡ pos 1
is_one→pos (pos n) h = ground arith
is_one→pos (negsuc n) h = cc

accept_block-value :
    (r : Result Bytes (SignedDataEnvelope × Bytes)) (e : SignedDataEnvelope) (rest : Bytes)
    → accept_block r ≡ value (e, rest)
    → (r ≡ value (e, rest)) × IsSignedData e
accept_block-value (error m) e rest h = cc
accept_block-value (value (x, y)) e rest h =
    ground (arith, bytes_eq_iff signed_data_identifier x.oid, is_one→pos x.version)

parse_block-value :
    (unmarshal : Unmarshal) (bytes : Bytes) (e : SignedDataEnvelope) (rest : Bytes)
    → parse_block unmarshal bytes ≡ value (e, rest)
    → (unmarshal bytes ≡ value (e, rest)) × IsSignedData e
unfolding parse_block
parse_block-value unmarshal bytes e rest h = accept_block-value (unmarshal bytes) e rest h

All-concat :
    (xs : List SignedDataEnvelope) (e : SignedDataEnvelope)
    → All IsSignedData xs
    → IsSignedData e
    → All IsSignedData (xs ++ e ∷ [])
All-concat [] e h k = (k, tt)
All-concat (x ∷ xs) e (h, hs) k = (h, All-concat xs e hs k)

module _ (unmarshal : Unmarshal) (S : Splits unmarshal) where
  parse_blocks-Accounts :
      (fuel : ℕ) (input rest : Bytes) (out : List SignedDataEnvelope)
      → length rest ≤ fuel
      → input ≡ raws out ++ rest
      → All IsSignedData out
      → (p : Parsed) × (parse_blocks unmarshal fuel rest out ≡ some p) × Accounts unmarshal input p
  unfolding parse_blocks
  parse_blocks-Accounts fuel input [] out hf hi ho = (
    record { blocks = out; failure = none },
    refl,
    record { left = []; splits = hi; left_over = refl; are_signed = ho },
  )
  parse_blocks-Accounts zero input (b ∷ bs) out hf hi ho = absurd (omega arith)
  parse_blocks-Accounts (suc fuel) input (b ∷ bs) out hf hi ho =
      elim (Result-cases (parse_block unmarshal (b ∷ bs))) [
        | inl (e, h) ↦ (
          record { blocks = out; failure = some e },
          rw (h, parse_blocks) refl,
          record { left = b ∷ bs; splits = hi; left_over = h; are_signed = ho },
        )
        | inr ((e, rest), h) ↦
            let (u, signed) = parse_block-value unmarshal (b ∷ bs) e rest h in
            let front = S.input_is (b ∷ bs) e rest u in
            let shorter = S.raw-ne-nil (b ∷ bs) e rest u in
            let (p, parsed, accounts) =
              parse_blocks-Accounts fuel input rest (out ++ e ∷ [])
                (omega (arith, ap length front, length-append e.raw rest))
                (hi ∙ ap (λ t. raws out ++ t) front ∙ raws-concat out e rest)
                (All-concat out e ho signed) in
            (p, rw (h, parse_blocks) parsed, accounts)
      ]

  -- The loop ends on every input, and its blocks stand at the front of the input in order; they are
  -- all signed data of version 1. With no error nothing is left, else the error is that of the block
  -- at what is left.
  pub parse_signed_data-Accounts :
      (input : Bytes)
      → (p : Parsed) × (parse_signed_data unmarshal input ≡ some p) × Accounts unmarshal input p
  unfolding parse_signed_data raws
  parse_signed_data-Accounts input =
      parse_blocks-Accounts (length input) input input [] (omega arith) refl tt
