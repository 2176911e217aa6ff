-- ===== src/Certs/Stream/Tokens.antt =====
-- lib/certs.go: the loop of `pemScanner` over an input.
use certigo.Base.{
  arith, ℕ, zero, suc, ◌-◌, ◌≤◌, ◌<◌, length, length-take, length-drop, take, drop, [], ◌∷◌, ◌≡◌,
  refl, ap, Option-cases, inl, inr, some, Bytes,
}
use certigo.Certs.{Block}
use certigo.Certs.Stream.{Libraries, max_token, pem_tokens}

-- What is left behind a token is shorter.
length-behind :
    (bytes rest : Bytes)
    → length rest < length (take max_token bytes)
    → length (drop (length (take max_token bytes) - length rest) bytes) < length bytes
length-behind bytes rest less = omega (
  arith,
  less,
  length-take max_token bytes,
  length-drop (length (take max_token bytes) - length rest) bytes,
)

module _ (L : Libraries) where
  module _
      (shrinks : (bytes : Bytes) (block : Block) (rest : Bytes)
        → L.pem_decode bytes ≡ some (block, rest)
        → length rest < length bytes) where
    pem_tokens-empty : (fuel : ℕ) (bytes : Bytes) → length bytes ≤ 0 → pem_tokens L fuel bytes ≡ []
    unfolding pem_tokens
    pem_tokens-empty zero bytes h = refl
    pem_tokens-empty (suc fuel) bytes h =
        elim (Option-cases (L.pem_decode (take max_token bytes))) [
          | inl hd ↦ rw (hd, pem_tokens) refl
          | inr ((block, rest), hd) ↦
              absurd (omega (arith, shrinks _ block rest hd, length-take max_token bytes, h))
        ]

    -- Where a block that is decoded takes at least one byte, fuel of the length of the input is enough:
    -- more of it gives the same tokens.
    pem_tokens-fuel :
        (fuel more : ℕ) (bytes : Bytes)
        → length bytes ≤ fuel
        → length bytes ≤ more
        → pem_tokens L fuel bytes ≡ pem_tokens L more bytes
    unfolding pem_tokens
    pem_tokens-fuel zero more bytes h k = rw (pem_tokens-empty more bytes h) refl
    pem_tokens-fuel (suc fuel) zero bytes h k = pem_tokens-empty (suc fuel) bytes k
    pem_tokens-fuel (suc fuel) (suc more) bytes h k =
        elim (Option-cases (L.pem_decode (take max_token bytes))) [
          | inl hd ↦ rw (hd, pem_tokens) refl
          | inr ((block, rest), hd) ↦
              let less = length-behind bytes rest (shrinks _ block rest hd) in
              let size = length (take max_token bytes) - length rest in
              rw (hd, pem_tokens)
                (ap (λ tokens. take size bytes ∷ tokens)
                  (pem_tokens-fuel fuel more (drop size bytes) (omega (arith, less, h))
                    (omega (arith, less, k))))
        ]
