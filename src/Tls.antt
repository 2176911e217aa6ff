-- ===== src/Tls.antt =====
-- lib/tls.go: what is told of a TLS connection and of a request for a certificate. The numbers are
-- those of the constants of crypto/tls; `asn1.Unmarshal` of a subject is a parameter.
pub mod Ciphers
pub mod Text
use certigo.Base.{
  ℕ, zero, suc, ◌-◌, List, [], ◌∷◌, ◌++◌, Option, none, some, Bool, Bytes, str, bytes_eq, length,
  take, drop, Result, value, error, if◌then◌else◌,
}
use certigo.Base.Digits.{hex}
use certigo.X509.{ConnectionState, RequestInfo, Name}
use certigo.Encoder.{lookup_code, signature_scheme_strings}
use certigo.Encoder.Certificates.{SimplePkixName}

pub data Quality : Type 0 where
  insecure fair good : Quality

pub record Description : Type 0 where
  pub name : Bytes
  pub slug : Bytes
  pub quality : Quality

abbrev about : Bytes → Bytes → Quality → Description
about name slug quality = record { name = name; slug = slug; quality = quality }

abbrev pub tls_versions : List (ℕ × Description)
tls_versions =
    (0x0300, about (str "SSL 3.0") (str "ssl_3_0") insecure)
    ∷ (0x0301, about (str "TLS 1.0") (str "tls_1_0") insecure)
    ∷ (0x0302, about (str "TLS 1.1") (str "tls_1_1") fair)
    ∷ (0x0303, about (str "TLS 1.2") (str "tls_1_2") good)
    ∷ (0x0304, about (str "TLS 1.3") (str "tls_1_3") good)
    ∷ []

abbrev pub cipher_suites : List (ℕ × Description)
cipher_suites =
    (0x0005, about [] (str "TLS_RSA_WITH_RC4_128_SHA") insecure)
    ∷ (0x000A, about [] (str "TLS_RSA_WITH_3DES_EDE_CBC_SHA") insecure)
    ∷ (0x002F, about [] (str "TLS_RSA_WITH_AES_128_CBC_SHA") fair)
    ∷ (0x0035, about [] (str "TLS_RSA_WITH_AES_256_CBC_SHA") fair)
    ∷ (0x003C, about [] (str "TLS_RSA_WITH_AES_128_CBC_SHA256") fair)
    ∷ (0x009C, about [] (str "TLS_RSA_WITH_AES_128_GCM_SHA256") fair)
    ∷ (0x009D, about [] (str "TLS_RSA_WITH_AES_256_GCM_SHA384") fair)
    ∷ (0xC007, about [] (str "TLS_ECDHE_ECDSA_WITH_RC4_128_SHA") insecure)
    ∷ (0xC009, about [] (str "TLS_ECDHE_ECDSA_WITH_AES_128_CBC_SHA") fair)
    ∷ (0xC00A, about [] (str "TLS_ECDHE_ECDSA_WITH_AES_256_CBC_SHA") fair)
    ∷ (0xC011, about [] (str "TLS_ECDHE_RSA_WITH_RC4_128_SHA") insecure)
    ∷ (0xC012, about [] (str "TLS_ECDHE_RSA_WITH_3DES_EDE_CBC_SHA") insecure)
    ∷ (0xC013, about [] (str "TLS_ECDHE_RSA_WITH_AES_128_CBC_SHA") fair)
    ∷ (0xC014, about [] (str "TLS_ECDHE_RSA_WITH_AES_256_CBC_SHA") fair)
    ∷ (0xC023, about [] (str "TLS_ECDHE_ECDSA_WITH_AES_128_CBC_SHA256") fair)
    ∷ (0xC027, about [] (str "TLS_ECDHE_RSA_WITH_AES_128_CBC_SHA256") fair)
    ∷ (0xC02F, about [] (str "TLS_ECDHE_RSA_WITH_AES_128_GCM_SHA256") good)
    ∷ (0xC02B, about [] (str "TLS_ECDHE_ECDSA_WITH_AES_128_GCM_SHA256") good)
    ∷ (0xC030, about [] (str "TLS_ECDHE_RSA_WITH_AES_256_GCM_SHA384") good)
    ∷ (0xC02C, about [] (str "TLS_ECDHE_ECDSA_WITH_AES_256_GCM_SHA384") good)
    ∷ (0xCCA8, about [] (str "TLS_ECDHE_RSA_WITH_CHACHA20_POLY1305") good)
    ∷ (0xCCA9, about [] (str "TLS_ECDHE_ECDSA_WITH_CHACHA20_POLY1305") good)
    ∷ (0x1301, about [] (str "TLS_AES_128_GCM_SHA256") good)
    ∷ (0x1302, about [] (str "TLS_AES_256_GCM_SHA384") good)
    ∷ (0x1303, about [] (str "TLS_CHACHA20_POLY1305_SHA256") good)
    ∷ (0x5600, about [] (str "TLS_FALLBACK_SCSV") insecure)
    ∷ []

abbrev pub described : ℕ → Option Description → Description
described what (some d) = d
described what none = about (str "UNKNOWN_" ++ hex what) (str "UNKNOWN_" ++ hex what) insecure

unfoldable pub lookup : List (ℕ × Description) → ℕ → Description
lookup descriptions what = described what (lookup_code what descriptions)

abbrev is_prefix : Bytes → Bytes → Bool
is_prefix sep text = bytes_eq (take (length sep) text) sep

abbrev pub push : ℕ → List Bytes → List Bytes
push c [] = (c ∷ []) ∷ []
push c (piece ∷ pieces) = (c ∷ piece) ∷ pieces

-- `strings.Split` by a separator of a byte at least: `skip` bytes are still to go of an occurrence.
unfoldable pub split_loop : Bytes → ℕ → Bytes → List Bytes
split_loop sep skip [] = [] ∷ []
split_loop sep (suc skip) (c ∷ cs) = split_loop sep skip cs
split_loop sep zero (c ∷ cs) =
    let skipped = split_loop sep (length sep - 1) cs in
    let kept = split_loop sep zero cs in
    if is_prefix sep (c ∷ cs) then [] ∷ skipped else push c kept

-- Slicing a text from its fifth byte on; no slug is shorter than that.
abbrev cipher_text : Bytes → List Bytes → Bytes
cipher_text slug (kex ∷ cipher ∷ []) =
    drop 4 kex ++ (str " key exchange, " ++ (cipher ++ str " cipher"))
cipher_text slug pieces = drop 4 slug ++ str " cipher"

unfoldable pub explain_cipher : Description → Description
unfolding split_loop
explain_cipher d = record d { name = cipher_text d.slug (split_loop (str "_WITH_") 0 d.slug) }

-- `TLSDescription`
pub record TlsDescription : Type 0 where
  pub version : Bytes
  pub cipher : Bytes

unfoldable pub encode_tls_to_object : ConnectionState → TlsDescription
unfolding lookup
encode_tls_to_object t = record {
  version = (lookup tls_versions t.version).slug;
  cipher = (lookup cipher_suites t.cipher_suite).slug;
}

-- `CertificateRequestInfo`
pub record RequestDescription : Type 0 where
  pub acceptable_cas : List SimplePkixName
  pub signature_schemes : List Bytes

abbrev pub scheme_text : ℕ → Option Bytes → Bytes
scheme_text scheme (some text) = text
scheme_text scheme none = str "Unknown(0x" ++ (hex scheme ++ str ")")

unfoldable pub describe_schemes : List ℕ → List Bytes
unfolding lookup_code
describe_schemes [] = []
describe_schemes (scheme ∷ schemes) =
    scheme_text scheme (lookup_code scheme signature_scheme_strings) ∷ describe_schemes schemes

module _ (parse_raw_subject : Bytes → Result Bytes Name) where
  unfoldable pub describe_cas : List Bytes → Result Bytes (List SimplePkixName)
  describe_cas [] = value []
  describe_cas (ca ∷ cas) = elim (parse_raw_subject ca) [
    | error e ↦ error e
    | value subject ↦ elim (describe_cas cas) [
      | error e ↦ error e
      | value more ↦ value (record { name = subject; key_id = [] } ∷ more)
    ]
  ]

  unfoldable pub encode_cri_to_object : RequestInfo → Result Bytes RequestDescription
  unfolding describe_cas describe_schemes
  encode_cri_to_object cri = elim (describe_cas cri.acceptable_cas) [
    | error e ↦ error e
    | value cas ↦ value (record {
      acceptable_cas = cas;
      signature_schemes = describe_schemes cri.signature_schemes;
    })
  ]
