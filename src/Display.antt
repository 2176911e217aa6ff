-- ===== src/Display.antt =====
-- lib/display.go: colours, and the dates of a certificate. `paint` puts the codes of a colour around a
-- text; an instant is a number of nanoseconds, and `now` is what the clock gives.
pub mod Dates
pub mod Text
use certigo.Base.{
  Outcome, ok, panic, ℕ, List, [], ◌∷◌, ◌++◌, Option, none, some, Bytes, str, Result, value, error,
  if◌then◌else◌,
}
use certigo.Base.Int.{ℤ, plus_ℕ, lt_ℤ}
use certigo.Base.Dict.{Dict, lookup}
use certigo.X509.{Certificate}
use certigo.Certs.{Block, name_header, file_header}
use certigo.Encoder.{alg_string, lookup_code}
use certigo.Encoder.Certificates.{SimpleCertificate, create_simple_certificate}

pub data Color : Type 0 where
  green yellow red : Color

abbrev pub algorithm_colors : List (ℕ × Color)
algorithm_colors =
    (1, red)
    ∷ (2, red)
    ∷ (3, red)
    ∷ (4, green)
    ∷ (5, green)
    ∷ (6, green)
    ∷ (7, red)
    ∷ (8, red)
    ∷ (9, red)
    ∷ (10, green)
    ∷ (11, green)
    ∷ (12, green)
    ∷ []

abbrev pub day : ℕ
day = 86400000000000

abbrev pub month : ℕ
month = 2592000000000000

-- The colour of the first instant of a certificate's validity.
abbrev pub start_color : ℤ → ℤ → Color
start_color now start =
    if lt_ℤ (plus_ℕ start day) now then green else if lt_ℤ start now then yellow else red

-- The colour of its last instant.
abbrev pub end_color : ℤ → ℤ → Color
end_color now end =
    if lt_ℤ (plus_ℕ now month) end then green else if lt_ℤ now end then yellow else red

module _ (paint : Color → Bytes → Bytes) where
  unfoldable pub highlight_algorithm : ℕ → Bytes
  unfolding lookup_code
  highlight_algorithm sig = elim (lookup_code sig algorithm_colors) [
    | none ↦ alg_string sig
    | some color ↦ paint color (alg_string sig)
  ]

  -- `format` is `time.Format` in minutes.
  module _ (format : ℤ → Bytes) where
    abbrev pub time_string : ℤ → Color → Bytes
    time_string t color = paint color (format t)

    unfoldable pub cert_start : ℤ → ℤ → Bytes
    cert_start now start = time_string start (start_color now start)

    unfoldable pub cert_end : ℤ → ℤ → Bytes
    cert_end now end = time_string end (end_color now end)

-- A header's text, or the empty text.
abbrev header_text : Option Bytes → Bytes
header_text none = []
header_text (some text) = text

-- `certWithName`
pub record CertWithName : Type 0 where
  pub name : Bytes
  pub file : Bytes
  pub cert : Certificate

module _ (check_signature : Certificate → Certificate → Option Bytes)
    (encode_to_memory : Block → Bytes) where
  unfoldable pub create_simple_certificate_from_x509 :
      (Bytes → Result Bytes Certificate) → Block → Result Bytes SimpleCertificate
  create_simple_certificate_from_x509 parse_certificate block =
      elim (parse_certificate block.bytes) [
        | error e ↦ error (str "error reading cert: " ++ e)
        | value raw ↦
            let cert : CertWithName = record {
              name = header_text (lookup name_header block.headers);
              file = header_text (lookup file_header block.headers);
              cert = raw;
            } in
            value (create_simple_certificate check_signature encode_to_memory cert.name cert.cert)
      ]

  abbrev pub encode_x509_to_object : Certificate → SimpleCertificate
  encode_x509_to_object cert = create_simple_certificate check_signature encode_to_memory [] cert

  -- `json` is `json.Marshal`.
  module _ (json : SimpleCertificate → Result Bytes Bytes) where
    abbrev cert_json : CertWithName → Result Bytes Bytes
    cert_json c = json (create_simple_certificate check_signature encode_to_memory c.name c.cert)

    abbrev encode_x509_to_json : Certificate → Outcome Bytes Bytes
    encode_x509_to_json cert =
        elim (json (create_simple_certificate check_signature encode_to_memory [] cert)) [
          | error e ↦ panic
          | value raw ↦ ok raw
        ]
