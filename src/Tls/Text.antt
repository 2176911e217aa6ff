-- ===== src/Tls/Text.antt =====
-- lib/tls.go: the text of a connection, with what its template trims.
use certigo.Base.{List, [], ◌∷◌, ◌++◌, Option, none, some, Bytes, str, Result, value, error}
use certigo.X509.{ConnectionState, RequestInfo, Name}
use certigo.Encoder.Certificates.{SimplePkixName}
use certigo.Oids.{print_short_name}
use certigo.Display.{Color, green, yellow, red}
use certigo.Display.Text.{tabbed}
use certigo.Tls.{
  Quality, insecure, fair, good, Description, tls_versions, cipher_suites, lookup, explain_cipher,
  RequestDescription, encode_cri_to_object,
}

abbrev pub quality_color : Quality → Color
quality_color insecure = red
quality_color fair = yellow
quality_color good = green

abbrev short_names : List SimplePkixName → List Bytes
short_names [] = []
short_names (ca ∷ cas) = print_short_name ca.name ∷ short_names cas

module _ (paint : Color → Bytes → Bytes) where
  abbrev pub tls_color : Description → Bytes
  tls_color d = paint (quality_color d.quality) d.name

  -- Nothing is told of a request that cannot be described.
  abbrev request_lines : Option (Result Bytes RequestDescription) → Bytes
  request_lines none = []
  request_lines (some (error e)) = []
  request_lines (some (value cri)) =
      str "\n\n"
      ++ (paint green (str "Server has requested a client certificate:")
          ++ (str "\nAcceptable issuers:"
              ++ (tabbed (short_names cri.acceptable_cas)
                  ++ (str "\nSupported Signature Schemes:" ++ tabbed cri.signature_schemes))))

  module _ (parse_raw_subject : Bytes → Result Bytes Name) where
    abbrev described : Option RequestInfo → Option (Result Bytes RequestDescription)
    described none = none
    described (some cri) = some (encode_cri_to_object parse_raw_subject cri)

    unfoldable pub encode_tls_info_to_text : ConnectionState → Option RequestInfo → Bytes
    encode_tls_info_to_text tcs cri =
        str "** TLS Connection **\nVersion: "
        ++ (tls_color (lookup tls_versions tcs.version)
            ++ (str "\nCipher Suite: "
                ++ (tls_color (explain_cipher (lookup cipher_suites tcs.cipher_suite))
                    ++ request_lines (described cri))))
