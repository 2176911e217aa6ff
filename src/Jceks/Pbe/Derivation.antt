-- ===== src/Jceks/Pbe/Derivation.antt =====
-- jceks/pbe.go against the description above `recoverPBEWithMD5AndDES3CBC`.
use mathlib.Core.List.{reverse}
use certigo.Base.{
  map, subst, Bool-cases, inl, inr, bytes_eq, if◌then◌else◌, take_all, drop-append_more,
  take-append_more, ◌-◌, ℕ, zero, suc, ◌%◌, ◌≡◌, refl, sym, ◌*◌, ◌∙◌, [], ◌∷◌, ◌++◌, Bytes, length,
  take, drop, replicate, value, arith, length-append, length-take, ap, append-nil, take-append,
  drop-append,
}
use certigo.Base.Int.{pos}
use certigo.Jceks.Crypto.{AlgorithmIdentifier, PbeParameters, Crypto, IsLawful}
use certigo.Jceks.Pbe.{
  to_seven_bits, adjust_salt, copy_at, swap_bytes, digest_rounds, derive_half, derive_key,
  decrypt_with, recover_pbe,
}

copy_at-append :
    (xs src ys zs : Bytes)
    → length ys ≡ length src
    → copy_at (length xs) src (xs ++ (ys ++ zs)) ≡ xs ++ (src ++ zs)
unfolding copy_at
copy_at-append xs src ys zs h = rw (
  take-append,
  take_all (length (xs ++ (ys ++ zs)) - length xs) src
      (omega (arith, length-append xs (ys ++ zs), length-append ys zs)),
  drop-append_more,
  ← h,
  drop-append,
)

-- The halves of a salt.
front_of : (front back : Bytes) → length front ≡ 4 → take 4 (front ++ back) ≡ front
front_of front back h = subst (λ n. take n (front ++ back) ≡ front) h (take-append front back)

back_of :
    (front back : Bytes)
    → length front ≡ 4
    → length back ≡ 4
    → take 4 (drop 4 (front ++ back)) ≡ back
back_of front back hf hb =
    subst (λ n. take 4 (drop n (front ++ back)) ≡ back) hf
      (ap (take 4) (drop-append front back) ∙ take_all 4 back (omega (arith, hb)))

swapped :
    (front back : Bytes)
    → length front ≡ 4
    → swap_bytes 1 (swap_bytes 0 (front ++ back)) ≡ reverse front ++ back
swapped (a ∷ b ∷ c ∷ d ∷ []) back h = refl
swapped [] back h = absurd (omega (arith, h))
swapped (a ∷ []) back h = absurd (omega (arith, h))
swapped (a ∷ b ∷ []) back h = absurd (omega (arith, h))
swapped (a ∷ b ∷ c ∷ []) back h = absurd (omega (arith, h))
swapped (a ∷ b ∷ c ∷ d ∷ e ∷ r) back h = absurd (omega (arith, h))

adjust_salt-append :
    (front back : Bytes)
    → length front ≡ 4
    → length back ≡ 4
    → adjust_salt (front ++ back) ≡ (if bytes_eq front back then reverse front else front) ++ back
unfolding adjust_salt
adjust_salt-append front back hf hb =
    let second : drop 4 (front ++ back) ≡ back =
      subst (λ n. drop n (front ++ back) ≡ back) hf (drop-append front back) in
    elim (Bool-cases (bytes_eq front back)) [
      | inl h ↦ rw (adjust_salt, front_of front back hf, second, h) (swapped front back hf)
      | inr h ↦ rw (adjust_salt, front_of front back hf, second, h) refl
    ]

length-reverse_four : (front : Bytes) → length front ≡ 4 → length (reverse front) ≡ 4
length-reverse_four (a ∷ b ∷ c ∷ d ∷ []) h = refl
length-reverse_four [] h = h
length-reverse_four (a ∷ []) h = absurd (omega (arith, h))
length-reverse_four (a ∷ b ∷ []) h = absurd (omega (arith, h))
length-reverse_four (a ∷ b ∷ c ∷ []) h = absurd (omega (arith, h))
length-reverse_four (a ∷ b ∷ c ∷ d ∷ e ∷ r) h = absurd (omega (arith, h))

length-turned :
    (front back : Bytes)
    → length front ≡ 4
    → length (if bytes_eq front back then reverse front else front) ≡ 4
length-turned front back h = elim (Bool-cases (bytes_eq front back)) [
  | inl e ↦ rw e (length-reverse_four front h)
  | inr e ↦ rw e h
]

module _ (C : Crypto) where
  open C use {md5}

  -- The digest of some rounds: each is that of the last with the password behind it.
  unfoldable pub digested : ℕ → Bytes → Bytes → Bytes
  digested zero passwd half = half
  digested (suc n) passwd half = md5 (digested n passwd half ++ passwd)

  digested-suc :
      (n : ℕ) (passwd half : Bytes)
      → digested n passwd (md5 (half ++ passwd)) ≡ digested (suc n) passwd half
  unfolding digested
  digested-suc zero passwd half = refl
  digested-suc (suc n) passwd half = ap (λ t. md5 (t ++ passwd)) (digested-suc n passwd half)

  digest_rounds-eq-digested :
      (n : ℕ) (passwd half : Bytes) → digest_rounds C n passwd half ≡ digested n passwd half
  unfolding digest_rounds digested
  digest_rounds-eq-digested zero passwd half = refl
  digest_rounds-eq-digested (suc n) passwd half =
      digest_rounds-eq-digested n passwd (md5 (half ++ passwd)) ∙ digested-suc n passwd half

module _ (C : Crypto) (L : IsLawful C) where
  open C use {md5, new_triple_des, decrypt, unmarshal_pbe}

  length-digested : (n : ℕ) (passwd half : Bytes) → length (digested C (suc n) passwd half) ≡ 16
  unfolding digested
  length-digested n passwd half = L.length-md5 (digested C n passwd half ++ passwd)

  derive_half-append :
      (n : ℕ) (passwd salt : Bytes) (i : ℕ) (done ys zs : Bytes)
      → length salt ≡ 8
      → length done ≡ i * 16
      → length ys ≡ 16
      → derive_half C (suc n) passwd salt i (done ++ (ys ++ zs))
        ≡ done ++ (digested C (suc n) passwd (take 4 (drop (i * 4) salt)) ++ zs)
  unfolding derive_half
  derive_half-append n passwd salt i done ys zs h hd hy =
      let half = take 4 (drop (i * 4) salt) in
      let digest = digested C (suc n) passwd half in
      let size = length-digested n passwd (take 4 (drop (i * 4) salt)) in
      rw (h, digest_rounds-eq-digested C (suc n) passwd half, size, ← hd)
        (copy_at-append done digest ys zs (hy ∙ sym size))

  -- Both digests, one behind the other.
  derive_key-append :
      (n : ℕ) (passwd salt : Bytes)
      → length salt ≡ 8
      → derive_key C (suc n) passwd salt
        ≡ digested C (suc n) passwd (take 4 salt)
          ++ digested C (suc n) passwd (take 4 (drop 4 salt))
  unfolding derive_key
  derive_key-append n passwd salt h =
      let zeros = replicate 16 0 in
      let first = digested C (suc n) passwd (take 4 salt) in
      ap (derive_half C (suc n) passwd salt 1)
        (derive_half-append n passwd salt 0 [] zeros zeros h refl refl)
      ∙ ap (λ t. derive_half C (suc n) passwd salt 1 (first ++ t)) (sym (append-nil zeros))
      ∙ derive_half-append n passwd salt 1 first zeros [] h (length-digested n passwd (take 4 salt))
          refl
      ∙ ap (λ t. first ++ t) (append-nil _)

  derive_key-turned :
      (n : ℕ) (passwd front back : Bytes)
      → length front ≡ 4
      → length back ≡ 4
      → derive_key C (suc n) passwd (adjust_salt (front ++ back))
        ≡ digested C (suc n) passwd (if bytes_eq front back then reverse front else front)
          ++ digested C (suc n) passwd back
  derive_key-turned n passwd front back hf hb =
      let turned = if bytes_eq front back then reverse front else front in
      let size : length turned ≡ 4 = length-turned front back hf in
      ap (derive_key C (suc n) passwd) (adjust_salt-append front back hf hb)
      ∙ derive_key-append n passwd (turned ++ back)
          (omega (arith, length-append turned back, size, hb))
      ∙ ap
          (λ t.
            digested C (suc n) passwd t
            ++ digested C (suc n) passwd (take 4 (drop 4 (turned ++ back))))
          (front_of turned back size)
      ∙ ap (λ t. digested C (suc n) passwd turned ++ digested C (suc n) passwd t)
          (back_of turned back size hb)

  decrypt_with-append :
      (first second data_in : Bytes)
      → length first ≡ 16
      → length second ≡ 16
      → length data_in % 8 ≡ 0
      → (c : C.Cipher) × (new_triple_des (first ++ take 8 second) ≡ value c)
        × (decrypt_with C (first ++ second) data_in ≡ value (decrypt c (drop 8 second) data_in))
  unfolding decrypt_with
  decrypt_with-append first second data_in size1 size2 hd =
      let (c, accepted) =
        L.accepts_key (first ++ take 8 second)
          (omega (arith, length-append first (take 8 second), length-take 8 second)) in
      (
        c,
        accepted,
        rw (
          decrypt_with,
          rw size1 at (take-append_more first second 8),
          accepted,
          rw size1 at (drop-append_more first second 8),
          hd,
        ),
      )

  -- Under a digest of 16 bytes and a cipher that takes every key of 24, for parameters that parse,
  -- with a salt of two halves of four bytes, where the first is turned round if it equals the other,
  -- and with one round at least: each half gives the digest of as many rounds as the parameters ask
  -- for, a round being the digest of the last one, or of the half, with the seven-bit password behind
  -- it. The key is the first digest and half of the second, the rest of the second is the vector,
  -- the cipher takes such a key, and data of whole blocks is decrypted under both.
  pub recover_pbe-eq-decrypt :
      (algo : AlgorithmIdentifier) (data_in password : Bytes) {params : PbeParameters} {n : ℕ}
      (front back : Bytes)
      → unmarshal_pbe algo.parameters ≡ value params
      → params.salt ≡ front ++ back
      → length front ≡ 4
      → length back ≡ 4
      → params.iterations ≡ pos (suc n)
      → length data_in % 8 ≡ 0
      → let passwd = map (λ b. b % 128) password in
        let first =
          digested C (suc n) passwd (if bytes_eq front back then reverse front else front) in
        let second = digested C (suc n) passwd back in
        (c : C.Cipher) × (new_triple_des (first ++ take 8 second) ≡ value c)
        × (recover_pbe C algo data_in password ≡ value (decrypt c (drop 8 second) data_in))
  unfolding recover_pbe
  recover_pbe-eq-decrypt algo data_in password {params} {n} front back hu hs hf hb hi hd =
      let passwd = to_seven_bits password in
      let turned = if bytes_eq front back then reverse front else front in
      let (c, accepted, decrypted) =
        decrypt_with-append (digested C (suc n) passwd turned) (digested C (suc n) passwd back)
          data_in (length-digested n passwd turned) (length-digested n passwd back) hd in
      let size : length params.salt ≡ 8 = omega (arith, ap length hs, length-append front back) in
      (
        c,
        accepted,
        rw (hu, recover_pbe, size, hi, hs, derive_key-turned n passwd front back hf hb, decrypted),
      )
