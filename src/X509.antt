-- ===== src/X509.antt =====
-- The values of the libraries crypto/x509, crypto/x509/pkix and crypto/tls that certigo reads, with
-- the fields that it reads. Their constants are those of Go 1.13.
use certigo.Base.{ℕ, Bool, List, Option, Bytes}
use certigo.Base.Int.{ℤ}
use certigo.Jceks.Crypto.{Oid}

-- `pkix.AttributeTypeAndValue`, its value as it prints.
pub record Attribute : Type 0 where
  pub oid : Oid
  pub text : Bytes

-- `pkix.Name`
pub record Name : Type 0 where
  pub common_name : Bytes
  pub names : List Attribute

-- The public keys that certigo tells apart: for RSA the modulus and the exponent, for DSA the bits
-- of P, for ECDSA those of the curve.
pub data PublicKey : Type 0 where
  dsa : ℕ → PublicKey
  ecdsa : ℕ → PublicKey
  rsa : ℤ → ℤ → PublicKey
  other_key : PublicKey

-- `not_before` and `not_after` are instants, in nanoseconds from any fixed one.
pub record Certificate : Type 0 where
  pub raw : Bytes
  pub version : ℤ
  pub serial_number : ℤ
  pub subject : Name
  pub issuer : Name
  pub not_before : ℤ
  pub not_after : ℤ
  pub signature_algorithm : ℕ
  pub public_key : PublicKey
  pub key_usage : ℕ
  pub ext_key_usage : List ℕ
  pub basic_constraints_valid : Bool
  pub is_ca : Bool
  pub max_path_len : ℤ
  pub max_path_len_zero : Bool
  pub subject_key_id : Bytes
  pub authority_key_id : Bytes
  pub ocsp_server : List Bytes
  pub issuing_certificate_url : List Bytes
  pub dns_names : List Bytes
  pub ip_addresses : List Bytes
  pub email_addresses : List Bytes
  pub uris : List Bytes
  pub unhandled_critical_extensions : List Oid
  pub permitted_dns_domains_critical : Bool
  pub permitted_dns_domains : List Bytes
  pub excluded_dns_domains : List Bytes
  pub permitted_ip_ranges : List Bytes
  pub excluded_ip_ranges : List Bytes
  pub permitted_email_addresses : List Bytes
  pub excluded_email_addresses : List Bytes
  pub permitted_uri_domains : List Bytes
  pub excluded_uri_domains : List Bytes

-- `tls.ConnectionState`
pub record ConnectionState : Type 0 where
  pub version : ℕ
  pub cipher_suite : ℕ
  pub peer_certificates : List Certificate
  pub ocsp_response : Option Bytes

-- `tls.CertificateRequestInfo`
pub record RequestInfo : Type 0 where
  pub acceptable_cas : List Bytes
  pub signature_schemes : List ℕ

abbrev pub version_ssl30 : ℕ
version_ssl30 = 0x0300

abbrev pub version_tls12 : ℕ
version_tls12 = 0x0303
