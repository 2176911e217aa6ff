-- ===== src/Encoder/Warnings/Clean.antt =====
-- lib/encoder.go: when a certificate comes without a warning.
use certigo.Base.{
  is_empty, ℕ, ◌≤◌, List, [], ◌∷◌, ◌++◌, ◌≡◌, ◌≢◌, ◌↔◌, refl, Bool, true, false, not, ◌&&◌, Bytes,
  bytes_eq, ◌==◌, ltb, arith, All,
}
use certigo.X509.{Certificate, PublicKey, dsa, ecdsa, rsa, other_key}
use certigo.Encoder.{bad_signature_algorithms, bit_len, decode_key, has_flag, key_usage_cert_sign}
use certigo.Encoder.Warnings.{
  warn_if, is_positive, less_than, bad_algorithm_warnings, rsa_warnings, size_warnings,
  alg_warnings, cert_warnings,
}

cons-nil : {A : Type 0} {x : A} {xs : List A} → x ∷ xs ≢ []
cons-nil e = cc

true-false : true ≢ false
true-false e = cc

both :
    {P Q : Type 0} {xs ys : List Bytes} → (xs ≡ []) ↔ P → (ys ≡ []) ↔ Q → (xs ++ ys ≡ []) ↔ (P × Q)
both {xs = []} p q = (λ h. (p.0 refl, q.0 h), λ (a, b). q.1 b)
both {xs = x ∷ xs} p q = (λ h. absurd (cons-nil h), λ (a, b). absurd (cons-nil (p.1 a)))

quiet : {P : Type 0} (b : Bool) (text : Bytes) → (b ≡ false) ↔ P → (warn_if b text ≡ []) ↔ P
quiet true text p = (λ h. absurd (cons-nil h), λ a. absurd (true-false (p.1 a)))
quiet false text p = (λ h. p.0 refl, λ a. refl)

-- A key is long enough, and an RSA key has a positive modulus and an exponent of 3 at least.
abbrev pub IsStrong : PublicKey → Type 0
IsStrong (dsa size) = 2048 ≤ size
IsStrong (ecdsa size) = 224 ≤ size
IsStrong (rsa n e) = (2048 ≤ bit_len n) × ((less_than e 3 ≡ false) × (is_positive n ≡ true))
IsStrong other_key = Unit {0}

-- What the warnings look for.
abbrev pub IsClean : Certificate → List Bytes → Type 0
IsClean cert uri_names =
    (is_positive cert.serial_number ≡ true)
    × ((bit_len cert.serial_number ≤ 160)
        × ((has_flag key_usage_cert_sign cert.key_usage ≡ true → cert.is_ca ≡ true)
            × ((cert.is_ca ≡ true → has_flag key_usage_cert_sign cert.key_usage ≡ true)
                × ((less_than cert.version 2 ≡ false)
                    × ((cert.dns_names ≡ []
                          → cert.ip_addresses ≡ []
                          → uri_names ≡ []
                          → cert.is_ca ≡ true)
                        × ((cert.unhandled_critical_extensions ≡ [])
                            × (All (λ bad. cert.signature_algorithm ≢ bad) bad_signature_algorithms
                                × IsStrong cert.public_key)))))))

not-false_iff : (b : Bool) → (not b ≡ false) ↔ (b ≡ true)
not-false_iff b = ground arith

implies_iff : (a b : Bool) → ((a && not b) ≡ false) ↔ (a ≡ true → b ≡ true)
implies_iff a b = ground arith

implies_back_iff : (a b : Bool) → ((not a && b) ≡ false) ↔ (b ≡ true → a ≡ true)
implies_back_iff a b = ground arith

is_empty_iff : {A : Type 0} (xs : List A) → (not (is_empty xs) ≡ false) ↔ (xs ≡ [])
is_empty_iff [] = (λ _. refl, λ _. refl)
is_empty_iff (x ∷ xs) = (λ h. absurd (true-false h), λ h. absurd (cons-nil h))

names_iff :
    (xs ys zs : List Bytes) (b : Bool)
    → ((is_empty xs && (is_empty ys && (is_empty zs && not b))) ≡ false)
      ↔ (xs ≡ [] → ys ≡ [] → zs ≡ [] → b ≡ true)
names_iff [] [] [] b = ground arith
names_iff [] [] (z ∷ zs) b = (λ _ _ _ h. absurd (cons-nil h), λ _. refl)
names_iff [] (y ∷ ys) zs b = (λ _ _ h _. absurd (cons-nil h), λ _. refl)
names_iff (x ∷ xs) ys zs b = (λ _ h _ _. absurd (cons-nil h), λ _. refl)

bad_iff :
    (bads : List ℕ) (algorithm : ℕ)
    → (bad_algorithm_warnings bads algorithm ≡ []) ↔ All (λ bad. algorithm ≢ bad) bads
unfolding bad_algorithm_warnings
bad_iff [] algorithm = (λ _. tt, λ _. refl)
bad_iff (bad ∷ bads) algorithm =
    both (quiet (algorithm == bad) _ (ground arith)) (bad_iff bads algorithm)

size_iff : (size bound : ℕ) (text : Bytes) → (warn_if (ltb size bound) text ≡ []) ↔ (bound ≤ size)
size_iff size bound text = quiet (ltb size bound) text (ground arith)

nothing : {P : Type 0} (xs : List Bytes) → (xs ≡ []) ↔ P → (xs ++ [] ≡ []) ↔ P
nothing [] p = p
nothing (x ∷ xs) p = (λ h. absurd (cons-nil h), λ a. absurd (cons-nil (p.1 a)))

IsStrong-iff :
    (key : PublicKey) → (size_warnings (decode_key key) ++ rsa_warnings key ≡ []) ↔ IsStrong key
unfolding decode_key bytes_eq
IsStrong-iff (dsa size) = nothing _ (nothing _ (size_iff size 2048 _))
IsStrong-iff (ecdsa size) = nothing _ (size_iff size 224 _)
IsStrong-iff (rsa n e) = both (nothing _ (size_iff (bit_len n) 2048 _)) (
    both (quiet (less_than e 3) _ (λ h. h, λ h. h))
      (quiet (not (is_positive n)) _ (not-false_iff (is_positive n))))
IsStrong-iff other_key = (λ _. tt, λ _. refl)

swap_iff :
    {P Q : Type 0} (xs ys zs : List Bytes)
    → (ys ≡ []) ↔ P
    → (xs ++ zs ≡ []) ↔ Q
    → (xs ++ (ys ++ zs) ≡ []) ↔ (P × Q)
swap_iff [] ys zs p q = both p q
swap_iff (x ∷ xs) ys zs p q = (λ h. absurd (cons-nil h), λ (a, b). absurd (cons-nil (q.1 b)))

alg_iff :
    (cert : Certificate)
    → (alg_warnings cert ≡ []) ↔ (
        All (λ bad. cert.signature_algorithm ≢ bad) bad_signature_algorithms
        × IsStrong cert.public_key)
unfolding alg_warnings
alg_iff cert =
    swap_iff (size_warnings (decode_key cert.public_key)) _ (rsa_warnings cert.public_key)
      (bad_iff bad_signature_algorithms cert.signature_algorithm) (IsStrong-iff cert.public_key)

-- A certificate comes without a warning exactly where its serial number is positive and of 160 bits
-- at most, it is a CA exactly where it may sign, its `Version`, which Go counts from 1, is at least 2,
-- so that a certificate of version 2 passes, it is a CA or has a name, all its critical extensions
-- are handled, its signature algorithm is none of the outdated ones, and its key is strong.
pub cert_warnings-IsClean :
    (cert : Certificate) (uri_names : List Bytes)
    → (cert_warnings cert uri_names ≡ []) ↔ IsClean cert uri_names
unfolding cert_warnings
cert_warnings-IsClean cert uri_names =
    both (quiet _ _ (not-false_iff (is_positive cert.serial_number))) (
      both (quiet (ltb 160 (bit_len cert.serial_number)) _ (ground arith)) (
        both (quiet _ _ (implies_iff (has_flag key_usage_cert_sign cert.key_usage) cert.is_ca)) (
          both
            (quiet _ _ (implies_back_iff (has_flag key_usage_cert_sign cert.key_usage) cert.is_ca))
            (both (quiet (less_than cert.version 2) _ (λ h. h, λ h. h)) (
              both (quiet _ _ (names_iff cert.dns_names cert.ip_addresses uri_names cert.is_ca)) (
                both (quiet _ _ (is_empty_iff cert.unhandled_critical_extensions))
                  (alg_iff cert)))))))
