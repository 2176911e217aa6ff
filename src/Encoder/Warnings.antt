-- ===== src/Encoder/Warnings.antt =====
-- lib/encoder.go: `certWarnings` and `algWarnings`.
pub mod Clean
use certigo.Base.{
  is_empty, ℕ, zero, suc, ◌+◌, ◌≤◌, ◌<◌, List, [], ◌∷◌, ◌++◌, ◌≡◌, ◌↔◌, refl, Bool, true, false,
  not, ◌&&◌, ◌||◌, Bytes, str, bytes_eq, length, ◌==◌, ltb, leb, if◌then◌else◌, arith, map,
}
use certigo.Base.Int.{ℤ, pos, negsuc}
use certigo.X509.{Certificate, PublicKey, dsa, ecdsa, rsa, other_key}
use certigo.Certs.Texts.{int_text}
use certigo.Encoder.{
  alg_string, bad_signature_algorithms, bit_len, decode_key, has_flag, key_usage_cert_sign,
}

abbrev pub warn_if : Bool → Bytes → List Bytes
warn_if true text = text ∷ []
warn_if false text = []

-- `big.Int.Sign() == 1`
abbrev pub is_positive : ℤ → Bool
is_positive (pos zero) = false
is_positive (pos (suc n)) = true
is_positive (negsuc n) = false

abbrev pub less_than : ℤ → ℕ → Bool
less_than (pos n) m = ltb n m
less_than (negsuc n) m = true

-- `cert.Version+1`
abbrev next : ℤ → ℤ
next (pos n) = pos (suc n)
next (negsuc zero) = pos 0
next (negsuc (suc n)) = negsuc n

unfoldable pub bad_algorithm_warnings : List ℕ → ℕ → List Bytes
bad_algorithm_warnings [] algorithm = []
bad_algorithm_warnings (bad ∷ more) algorithm =
    warn_if (algorithm == bad)
      (str "Signed with " ++ (alg_string bad ++ str ", which is an outdated signature algorithm"))
    ++ bad_algorithm_warnings more algorithm

abbrev pub rsa_warnings : PublicKey → List Bytes
rsa_warnings (rsa n e) =
    warn_if (less_than e 3) (str "Public key exponent in RSA key is less than 3")
    ++ warn_if (not (is_positive n))
        (str "Public key modulus in RSA key appears to be zero/negative")
rsa_warnings (dsa size) = []
rsa_warnings (ecdsa size) = []
rsa_warnings other_key = []

abbrev pub size_warnings : Bytes × ℕ → List Bytes
size_warnings (alg, size) =
    warn_if ((bytes_eq alg (str "RSA") || bytes_eq alg (str "DSA")) && ltb size 2048)
      (str "Size of " ++ (alg ++ str " key should be at least 2048 bits"))
    ++ warn_if (bytes_eq alg (str "ECDSA") && ltb size 224)
        (str "Size of " ++ (alg ++ str " key should be at least 224 bits"))

unfoldable pub alg_warnings : Certificate → List Bytes
unfolding bad_algorithm_warnings
alg_warnings cert =
    size_warnings (decode_key cert.public_key)
    ++ (bad_algorithm_warnings bad_signature_algorithms cert.signature_algorithm
        ++ rsa_warnings cert.public_key)

unfoldable pub cert_warnings : Certificate → List Bytes → List Bytes
unfolding alg_warnings
cert_warnings cert uri_names =
    warn_if (not (is_positive cert.serial_number))
      (str "Serial number in cert appears to be zero/negative")
    ++ (warn_if (ltb 160 (bit_len cert.serial_number))
          (str "Serial number too long; should be 20 bytes or less")
        ++ (warn_if (has_flag key_usage_cert_sign cert.key_usage && not cert.is_ca)
              (str "Key usage 'cert sign' is set, but is not a CA cert")
            ++ (warn_if (not (has_flag key_usage_cert_sign cert.key_usage) && cert.is_ca)
                  (str "Certificate is a CA cert, but key usage 'cert sign' missing")
                ++ (warn_if (less_than cert.version 2) (
                      str "Certificate is not in X509v3 format (version is "
                      ++ (int_text (next cert.version) ++ str ")"))
                    ++ (warn_if
                          (is_empty cert.dns_names
                            && (is_empty cert.ip_addresses
                                && (is_empty uri_names && not cert.is_ca)))
                          (str
                            "Certificate doesn't have any valid DNS/URI names or IP addresses set")
                        ++ (warn_if (not (is_empty cert.unhandled_critical_extensions))
                              (str "Certificate has unhandled critical extensions")
                            ++ alg_warnings cert))))))
