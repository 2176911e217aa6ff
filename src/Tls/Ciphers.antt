-- ===== src/Tls/Ciphers.antt =====
-- lib/tls.go: what is shown of a cipher suite that the table does not know.
use certigo.Base.{
  ℕ, zero, suc, ◌/◌, ◌%◌, [], ◌∷◌, ◌++◌, ◌≡◌, ◌≢◌, refl, ap, none, Bytes, str, All, arith, bytes_eq,
  ltb, Bool-cases, inl, inr,
}
use certigo.Base.Digits.{hex, digit, digits_fuel}
use certigo.Encoder.{lookup_code}
use certigo.Tls.{cipher_suites, lookup, explain_cipher, push, split_loop}

-- A byte that is neither an underscore nor the letter behind it in the separator.
abbrev IsPlain : ℕ → Type 0
IsPlain c = (c ≢ b'_') × (c ≢ b'W')

All-append : (P : ℕ → Type 0) (xs ys : Bytes) → All P xs → All P ys → All P (xs ++ ys)
All-append P [] ys h k = k
All-append P (x ∷ xs) ys (p, h) k = (p, All-append P xs ys h k)

digit-IsPlain : (v : ℕ) → IsPlain (digit v)
digit-IsPlain v = ground arith

digits_fuel-IsPlain : (fuel v : ℕ) → All IsPlain (digits_fuel fuel 16 v)
unfolding digits_fuel
digits_fuel-IsPlain zero v = tt
digits_fuel-IsPlain (suc fuel) v = elim (Bool-cases (ltb v 16)) [
  | inl small ↦ rw small (digit-IsPlain v, tt)
  | inr large ↦ rw large (
      All-append IsPlain (digits_fuel fuel 16 (v / 16)) _ (digits_fuel-IsPlain fuel (v / 16))
        (digit-IsPlain (v % 16), tt))
]

hex-IsPlain : (v : ℕ) → All IsPlain (hex v)
unfolding hex
hex-IsPlain v = digits_fuel-IsPlain (suc v) v

split_loop_whole : (text : Bytes) → All IsPlain text → split_loop (str "_WITH_") 0 text ≡ text ∷ []
unfolding split_loop bytes_eq
split_loop_whole [] h = refl
split_loop_whole (c ∷ cs) ((hc, hw), h) = rw (split_loop_whole cs h) (ground arith)

split_loop_w :
    (text : Bytes)
    → All IsPlain text
    → split_loop (str "_WITH_") 0 (str "_" ++ text) ≡ (str "_" ++ text) ∷ []
unfolding split_loop bytes_eq
split_loop_w [] h = refl
split_loop_w (c ∷ cs) ((hc, hw), h) = rw (split_loop_whole (c ∷ cs) ((hc, hw), h)) (ground arith)

split_loop_unknown :
    (text : Bytes)
    → All IsPlain text
    → split_loop (str "_WITH_") 0 (str "UNKNOWN_" ++ text) ≡ (str "UNKNOWN_" ++ text) ∷ []
unfolding split_loop bytes_eq
split_loop_unknown text h =
    ap
      (λ pieces.
        push b'U' (push b'N' (push b'K' (push b'N' (push b'O' (push b'W' (push b'N' pieces)))))))
      (split_loop_w text h)

-- A cipher suite that the table does not know is shown without the first four bytes of its slug.
pub explain_cipher-unknown :
    (what : ℕ)
    → lookup_code what cipher_suites ≡ none
    → (explain_cipher (lookup cipher_suites what)).name ≡ str "OWN_" ++ (hex what ++ str " cipher")
unfolding explain_cipher lookup
explain_cipher-unknown what h = rw (h, split_loop_unknown (hex what) (hex-IsPlain what))
