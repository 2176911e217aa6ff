-- ===== src/Tests/Certs.antt =====
-- Runs of the model of lib/certs.go.
use mathlib.Core.List.Permᴰ
use certigo.Base.{
  Option, ltb, ℕ, suc, List, [], ◌∷◌, ◌++◌, ◌≡◌, refl, some, none, false, Bytes, str, Result, value,
  error, Outcome, ok, arith, if◌then◌else◌,
}
use certigo.Base.Int.{pos}
use certigo.Jceks.Parse.{load_from_reader}
use certigo.Jceks.Access.Listing.{IsVisit}
use certigo.Jceks.Encoding.{Item, cert_item, body_field, add_items}
use certigo.Jceks.Encoding.Load.{digest_of, load-encoding}
use certigo.X509.{Certificate, other_key}
use certigo.Certs.{Block, merged, for_each, trim_space}
use certigo.Certs.Stream.{
  Libraries, Passwords, unknown_key, read_jceks, read_certs_from_stream, stream_headers,
}
use certigo.Certs.Stream.PemFiles.{Written, read_certs_from_stream-pem_file}
use certigo.Certs.Stream.KeyStores.{NeverPanics, read_jceks-NeverPanics}
use certigo.Tests.Jceks.{crypto, sha1}

abbrev pub certificate : Bytes → Certificate
certificate raw = record {
  raw = raw;
  version = pos 2;
  serial_number = pos 1;
  subject = record { common_name = raw; names = [] };
  issuer = record { common_name = str "CA"; names = [] };
  not_before = pos 0;
  not_after = pos 100;
  signature_algorithm = 4;
  public_key = other_key;
  key_usage = 1;
  ext_key_usage = [];
  basic_constraints_valid = false;
  is_ca = false;
  max_path_len = pos 0;
  max_path_len_zero = false;
  subject_key_id = [];
  authority_key_id = [];
  ocsp_server = [];
  issuing_certificate_url = [];
  dns_names = str "example.com" ∷ [];
  ip_addresses = [];
  email_addresses = [];
  uris = [];
  unhandled_critical_extensions = [];
  permitted_dns_domains_critical = false;
  permitted_dns_domains = [];
  excluded_dns_domains = [];
  permitted_ip_ranges = [];
  excluded_ip_ranges = [];
  permitted_email_addresses = [];
  excluded_email_addresses = [];
  permitted_uri_domains = [];
  excluded_uri_domains = [];
}

abbrev parse_certificate : Bytes → Result Bytes Certificate
parse_certificate raw = value (certificate raw)

abbrev pub libraries : Libraries
libraries = record {
  crypto = crypto;
  key_kind = λ key. unknown_key;
  key_type = λ key. str "*dsa.PrivateKey";
  sha1 = sha1;
  visit = λ m. m;
  parse_certificate = parse_certificate;
  parse_certificates = λ bytes. value (certificate bytes ∷ []);
  unmarshal = λ bytes. error (str "no envelope");
  pkcs12_to_pem = λ bytes password. value [];
  pem_decode = λ bytes. none;
}

abbrev count : Block → Bytes → ℕ → Outcome Bytes (Unit {0}) × ℕ
count block format n = (ok tt, suc n)

abbrev password : Passwords ℕ
password = record { read = λ prompt. value []; give_up = λ e n. n }

abbrev items : List (Item Certificate)
items = cert_item (str "root") 1500 (record { raw = str "CA"; cert = certificate (str "CA") }) ∷ []

abbrev signed_file : Bytes
signed_file = body_field items ++ (digest_of sha1 [] items ++ [])

signed_file_loads :
    load_from_reader parse_certificate sha1 signed_file (some [])
    ≡ ok (add_items items (record { entries = [] }))
signed_file_loads = load-encoding parse_certificate sha1 [] items [] (omega arith) (ground arith)

same_order-IsVisit : IsVisit libraries.visit
same_order-IsVisit = record { order = λ m. Permᴰ.refl m }

read_jceks-NeverPanics_example :
    NeverPanics (read_jceks libraries password count [] signed_file none)
read_jceks-NeverPanics_example =
    read_jceks-NeverPanics libraries password count [] signed_file none same_order-IsVisit
      (λ block format n e. cc) (λ prompt. ([], refl)) refl signed_file_loads

-- A byte below 10 is the text of a block of its own.
abbrev decode_byte : Bytes → Option (Block × Bytes)
decode_byte [] = none
decode_byte (b ∷ rest) =
    if ltb b 10 then some (record { kind = []; bytes = b ∷ []; headers = [] }, rest) else none

abbrev byte_libraries : Libraries
byte_libraries = record libraries { pem_decode = decode_byte }

abbrev digit_block : ℕ → Written
digit_block n = (record { kind = []; bytes = n ∷ []; headers = [] }, n ∷ [])

read_certs_from_stream-pem_file_example :
    read_certs_from_stream byte_libraries password
      (1 ∷ 2 ∷ str "tail")
      (some (str "broken"))
      (str "a.pem")
      (str " PEM")
      count
    ≡ for_each
        (λ (item : Written). count (merged item.0 (stream_headers (str "a.pem"))) (str "PEM"))
        (digit_block 1 ∷ digit_block 2 ∷ [])
unfolding trim_space
read_certs_from_stream-pem_file_example =
    read_certs_from_stream-pem_file byte_libraries password count
      (digit_block 1 ∷ digit_block 2 ∷ []) (str "tail") (str "a.pem") (str " PEM")
      (some (str "broken")) refl
      ((λ rest. refl, omega arith, omega arith), ((λ rest. refl, omega arith, omega arith), tt))
      refl
