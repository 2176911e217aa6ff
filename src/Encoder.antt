-- ===== src/Encoder.antt =====
-- lib/encoder.go: the tables of names, and what is shown of a key, an algorithm and a key identifier.
-- The numbers are those of the constants of crypto/x509 and crypto/tls.
pub mod Usages
pub mod Hex
pub mod Warnings
pub mod Certificates
pub mod Json
use certigo.Base.{
  ℕ, zero, suc, ◌+◌, ◌-◌, ◌*◌, ◌/◌, ◌%◌, ◌^◌, List, [], ◌∷◌, ◌++◌, Option, none, some, Bool, true,
  false, Bytes, str, ◌==◌, ltb, leb, if◌then◌else◌, ◌&&◌,
}
use certigo.Base.Int.{ℤ, pos_part, neg_part}
use certigo.Base.Digits.{decimal}
use certigo.X509.{PublicKey, dsa, ecdsa, rsa, other_key}

-- A Go map keyed by numbers.
unfoldable pub lookup_code {ℓ} : {A : Type ℓ} → ℕ → List (ℕ × A) → Option A
lookup_code n [] = none
lookup_code n ((m, a) ∷ table) = if m == n then some a else lookup_code n table

abbrev pub key_usage_strings : List (ℕ × Bytes)
key_usage_strings =
    (1, str "Digital Signature")
    ∷ (2, str "Content Commitment")
    ∷ (4, str "Key Encipherment")
    ∷ (8, str "Data Encipherment")
    ∷ (16, str "Key Agreement")
    ∷ (32, str "Cert Sign")
    ∷ (64, str "CRL Sign")
    ∷ (128, str "Encipher Only")
    ∷ (256, str "Decipher Only")
    ∷ []

abbrev pub key_usage_cert_sign : ℕ
key_usage_cert_sign = 32

abbrev pub key_usages : List ℕ
key_usages = 1 ∷ 2 ∷ 4 ∷ 8 ∷ 16 ∷ 32 ∷ 64 ∷ 128 ∷ 256 ∷ []

abbrev pub ext_key_usage_strings : List (ℕ × Bytes)
ext_key_usage_strings =
    (0, str "Any")
    ∷ (1, str "Server Auth")
    ∷ (2, str "Client Auth")
    ∷ (3, str "Code Signing")
    ∷ (4, str "Email Protection")
    ∷ (5, str "IPSEC End System")
    ∷ (6, str "IPSEC Tunnel")
    ∷ (7, str "IPSEC User")
    ∷ (8, str "Time Stamping")
    ∷ (9, str "OCSP Signing")
    ∷ (10, str "Microsoft ServerGatedCrypto")
    ∷ (11, str "Netscape ServerGatedCrypto")
    ∷ []

-- The array `algoName`, from its index 1 on.
abbrev pub algo_name : List (ℕ × Bytes)
algo_name =
    (1, str "MD2-RSA")
    ∷ (2, str "MD5-RSA")
    ∷ (3, str "SHA1-RSA")
    ∷ (4, str "SHA256-RSA")
    ∷ (5, str "SHA384-RSA")
    ∷ (6, str "SHA512-RSA")
    ∷ (7, str "DSA-SHA1")
    ∷ (8, str "DSA-SHA256")
    ∷ (9, str "ECDSA-SHA1")
    ∷ (10, str "ECDSA-SHA256")
    ∷ (11, str "ECDSA-SHA384")
    ∷ (12, str "ECDSA-SHA512")
    ∷ []

abbrev pub bad_signature_algorithms : List ℕ
bad_signature_algorithms = 1 ∷ 2 ∷ 3 ∷ 7 ∷ 9 ∷ []

abbrev pub signature_scheme_strings : List (ℕ × Bytes)
signature_scheme_strings =
    (0x0201, str "RSA-PKCS1 with SHA1")
    ∷ (0x0401, str "RSA-PKCS1 with SHA256")
    ∷ (0x0501, str "RSA-PKCS1 with SHA384")
    ∷ (0x0601, str "RSA-PKCS1 with SHA512")
    ∷ (0x0804, str "RSA-PSS with SHA256")
    ∷ (0x0805, str "RSA-PSS with SHA384")
    ∷ (0x0806, str "RSA-PSS with SHA512")
    ∷ (0x0403, str "ECDSA with P256 and SHA256")
    ∷ (0x0503, str "ECDSA with P384 and SHA384")
    ∷ (0x0603, str "ECDSA with P521 and SHA512")
    ∷ (0x0807, str "ED25519")
    ∷ (0x0808, str "ED448")
    ∷ (0x0203, str "ECDSA with SHA1")
    ∷ (0x0303, str "ECDSA with SHA224")
    ∷ (0x0101, str "RSA-PKCS1 with MD5")
    ∷ (0x0301, str "RSA-PKCS1 with SHA224")
    ∷ (0x0102, str "DSA with MD5")
    ∷ (0x0202, str "DSA with SHA1")
    ∷ (0x0302, str "DSA with SHA224")
    ∷ (0x0402, str "DSA with SHA256")
    ∷ (0x0502, str "DSA with SHA384")
    ∷ (0x0602, str "DSA with SHA512")
    ∷ (0xEEEE, str "GOST 34.10-2012 (256)")
    ∷ (0xEFEF, str "GOST 34.10-2012 (512)")
    ∷ (0xEDED, str "GOST 34.10-2001")
    ∷ []

-- A map's value, or the empty text where the map has no such key.
abbrev pub text_or_empty : Option Bytes → Bytes
text_or_empty none = []
text_or_empty (some text) = text

-- Whether a set has the flag that is a power of two.
abbrev pub has_flag : ℕ → ℕ → Bool
has_flag flag set = set / flag % 2 == 1

unfoldable pub key_usage_loop : List ℕ → ℕ → List Bytes
unfolding lookup_code
key_usage_loop [] ku = []
key_usage_loop (key ∷ keys) ku =
    let rest = key_usage_loop keys ku in
    if has_flag key ku then text_or_empty (lookup_code key key_usage_strings) ∷ rest else rest

unfoldable pub key_usage : ℕ → List Bytes
unfolding key_usage_loop
key_usage ku = key_usage_loop key_usages ku

unfoldable pub ext_key_usage : ℕ → Bytes
unfolding lookup_code
ext_key_usage eku = elim (lookup_code eku ext_key_usage_strings) [
  | some text ↦ text
  | none ↦ str "unknown:" ++ decimal eku
]

unfoldable pub alg_string : ℕ → Bytes
unfolding lookup_code
alg_string algo =
    if ltb 0 algo && ltb algo 13 then text_or_empty (lookup_code algo algo_name) else decimal algo

-- `big.Int.BitLen`, with fuel that is the number.
unfoldable pub bit_len_fuel : ℕ → ℕ → ℕ
bit_len_fuel zero v = 0
bit_len_fuel (suc fuel) v = let half = bit_len_fuel fuel (v / 2) in if v == 0 then 0 else suc half

unfoldable pub bit_len : ℤ → ℕ
unfolding bit_len_fuel
bit_len z = bit_len_fuel (pos_part z + neg_part z) (pos_part z + neg_part z)

unfoldable pub decode_key : PublicKey → Bytes × ℕ
unfolding bit_len
decode_key (dsa size) = (str "DSA", size)
decode_key (ecdsa size) = (str "ECDSA", size)
decode_key (rsa n e) = (str "RSA", bit_len n)
decode_key other_key = ([], 0)

abbrev upper_digit : ℕ → ℕ
upper_digit v = if ltb v 10 then b'0' + v else b'A' + (v - 10)

-- Two digits for each byte, and colons between them.
unfoldable pub hexify : Bytes → Bytes
hexify [] = []
hexify (b ∷ []) = upper_digit (b / 16) ∷ upper_digit (b % 16) ∷ []
hexify (b ∷ c ∷ cs) = upper_digit (b / 16) ∷ upper_digit (b % 16) ∷ b':' ∷ hexify (c ∷ cs)
