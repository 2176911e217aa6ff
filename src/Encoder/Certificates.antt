-- ===== src/Encoder/Certificates.antt =====
-- lib/encoder.go: `createSimpleCertificate`. Whether a certificate signs itself, and the text of a PEM
-- block, are parameters; a URI is its text.
use certigo.Base.{
  is_empty, ℕ, List, [], Option, none, some, Bool, true, false, not, ◌||◌, Bytes, if◌then◌else◌,
}
use certigo.Base.Int.{ℤ, pos}
use certigo.X509.{Certificate, Name}
use certigo.Certs.{Block}
use certigo.Certs.Texts.{int_text}
use certigo.Certs.Stream.{encode_x509_to_pem}
use certigo.Encoder.Warnings.{cert_warnings, is_positive}

pub record BasicConstraints : Type 0 where
  pub is_ca : Bool
  pub max_path_len : Option ℤ

pub record NameConstraints : Type 0 where
  pub critical : Bool
  pub permitted_dns_domains : List Bytes
  pub excluded_dns_domains : List Bytes
  pub permitted_ip_ranges : List Bytes
  pub excluded_ip_ranges : List Bytes
  pub permitted_email_addresses : List Bytes
  pub excluded_email_addresses : List Bytes
  pub permitted_uri_domains : List Bytes
  pub excluded_uri_domains : List Bytes

pub record SimplePkixName : Type 0 where
  pub name : Name
  pub key_id : Bytes

pub record SimpleCertificate : Type 0 where
  pub alias : Bytes
  pub serial_number : Bytes
  pub not_before : ℤ
  pub not_after : ℤ
  pub signature_algorithm : ℕ
  pub is_self_signed : Bool
  pub subject : SimplePkixName
  pub issuer : SimplePkixName
  pub basic_constraints : Option BasicConstraints
  pub name_constraints : Option NameConstraints
  pub ocsp_server : List Bytes
  pub issuing_certificate_url : List Bytes
  pub key_usage : ℕ
  pub ext_key_usage : List ℕ
  pub alt_dns_names : List Bytes
  pub alt_ip_addresses : List Bytes
  pub uri_names : List Bytes
  pub email_addresses : List Bytes
  pub warnings : List Bytes
  pub pem : Bytes
  pub width : ℤ

unfoldable pub basic_constraints_of : Certificate → Option BasicConstraints
basic_constraints_of cert =
    if cert.basic_constraints_valid
    then some (record {
      is_ca = cert.is_ca;
      max_path_len =
          if is_positive cert.max_path_len || cert.max_path_len_zero
          then some cert.max_path_len
          else none;
    })
    else none

unfoldable pub name_constraints_of : Certificate → Option NameConstraints
name_constraints_of cert =
    if not (is_empty cert.permitted_dns_domains)
      || (not (is_empty cert.excluded_dns_domains)
          || (not (is_empty cert.permitted_ip_ranges)
              || (not (is_empty cert.excluded_ip_ranges)
                  || (not (is_empty cert.permitted_email_addresses)
                      || (not (is_empty cert.excluded_email_addresses)
                          || (not (is_empty cert.permitted_uri_domains)
                              || not (is_empty cert.excluded_uri_domains)))))))
    then some (record {
      critical = cert.permitted_dns_domains_critical;
      permitted_dns_domains = cert.permitted_dns_domains;
      excluded_dns_domains = cert.excluded_dns_domains;
      permitted_ip_ranges = cert.permitted_ip_ranges;
      excluded_ip_ranges = cert.excluded_ip_ranges;
      permitted_email_addresses = cert.permitted_email_addresses;
      excluded_email_addresses = cert.excluded_email_addresses;
      permitted_uri_domains = cert.permitted_uri_domains;
      excluded_uri_domains = cert.excluded_uri_domains;
    })
    else none

-- `check_signature` is `CheckSignatureFrom`, which gives no error where the second certificate signs
-- the first.
module _ (check_signature : Certificate → Certificate → Option Bytes) where
  unfoldable pub is_self_signed : Certificate → Bool
  is_self_signed cert = elim (check_signature cert cert) [ none ↦ true | some _ ↦ false ]

  module _ (encode_to_memory : Block → Bytes) where
    unfoldable pub create_simple_certificate : Bytes → Certificate → SimpleCertificate
    unfolding is_self_signed basic_constraints_of name_constraints_of
    create_simple_certificate name cert = record {
      alias = name;
      serial_number = int_text cert.serial_number;
      not_before = cert.not_before;
      not_after = cert.not_after;
      signature_algorithm = cert.signature_algorithm;
      is_self_signed = is_self_signed cert;
      subject = record { name = cert.subject; key_id = cert.subject_key_id };
      issuer = record { name = cert.issuer; key_id = cert.authority_key_id };
      basic_constraints = basic_constraints_of cert;
      name_constraints = name_constraints_of cert;
      ocsp_server = cert.ocsp_server;
      issuing_certificate_url = cert.issuing_certificate_url;
      key_usage = cert.key_usage;
      ext_key_usage = cert.ext_key_usage;
      alt_dns_names = cert.dns_names;
      alt_ip_addresses = cert.ip_addresses;
      uri_names = cert.uris;
      email_addresses = cert.email_addresses;
      warnings = cert_warnings cert cert.uris;
      pem = encode_to_memory (encode_x509_to_pem cert []);
      width = pos 0;
    }
