-- ===== src/Display/Text.antt =====
-- lib/display.go: the two layouts of a certificate, with what the templates trim. `wrap` is `wrapWith`
-- of the template library, by the separator of the layouts, and `show_ip` the text of an address.
use certigo.Base.{
  ℕ, List, [], ◌∷◌, ◌++◌, Option, none, some, Bool, true, false, Bytes, str, if◌then◌else◌, ◌==◌,
}
use certigo.Base.Int.{ℤ, sub_ℕ}
use certigo.X509.{Certificate, Attribute}
use certigo.Certs.{Block}
use certigo.Certs.Texts.{int_text}
use certigo.Encoder.{key_usage, ext_key_usage, hexify}
use certigo.Encoder.Certificates.{
  BasicConstraints, NameConstraints, SimpleCertificate, create_simple_certificate,
}
use certigo.Oids.{oid_name, print_short_name}
use certigo.Display.{Color, red, highlight_algorithm, cert_start, cert_end}

-- `join ", "`
unfoldable pub join_commas : List Bytes → Bytes
join_commas [] = []
join_commas (text ∷ []) = text
join_commas (text ∷ t ∷ texts) = text ++ (str ", " ++ join_commas (t ∷ texts))

-- A line for each text, with a tab in front.
unfoldable pub tabbed : List Bytes → Bytes
tabbed [] = []
tabbed (text ∷ texts) = str "\n\t" ++ (text ++ tabbed texts)

unfoldable pub pkix_name : List Attribute → Bytes
pkix_name [] = []
pkix_name (a ∷ more) = str "\n\t" ++ (oid_name a.oid ++ (str ": " ++ (a.text ++ pkix_name more)))

abbrev bool_text : Bool → Bytes
bool_text true = str "true"
bool_text false = str "false"

abbrev alias_line : Bytes → Bytes
alias_line [] = []
alias_line (c ∷ cs) = (c ∷ cs) ++ str "\n"

abbrev key_id_line : Bytes → Bytes → Bytes
key_id_line title [] = []
key_id_line title (b ∷ bs) = title ++ hexify (b ∷ bs)

abbrev path_len_text : Option ℤ → Bytes
path_len_text none = []
path_len_text (some n) = str ", pathlen:" ++ int_text n

abbrev basic_constraints_line : Option BasicConstraints → Bytes
basic_constraints_line none = []
basic_constraints_line (some c) =
    str "\nBasic Constraints: CA:" ++ (bool_text c.is_ca ++ path_len_text c.max_path_len)

abbrev usage_lines : ℕ → Bytes
usage_lines ku = if ku == 0 then [] else str "\nKey Usage:" ++ tabbed (key_usage ku)

unfoldable ext_usages : List ℕ → List Bytes
ext_usages [] = []
ext_usages (eku ∷ ekus) = ext_key_usage eku ∷ ext_usages ekus

abbrev ext_usage_lines : List ℕ → Bytes
ext_usage_lines [] = []
ext_usage_lines (eku ∷ ekus) = str "\nExtended Key Usage:" ++ tabbed (ext_usages (eku ∷ ekus))

module _ (paint : Color → Bytes → Bytes) (format : ℤ → Bytes) (wrap : ℤ → Bytes → Bytes)
    (show_ip : Bytes → Bytes) (now : ℤ) where
  abbrev list_lines : ℤ → Bytes → List Bytes → Bytes
  list_lines width title [] = []
  list_lines width title (t ∷ ts) =
      str "\n" ++ (title ++ (str ":\n\t" ++ wrap width (join_commas (t ∷ ts))))

  unfoldable show_ips : List Bytes → List Bytes
  show_ips [] = []
  show_ips (ip ∷ ips) = show_ip ip ∷ show_ips ips

  unfoldable redified : List Bytes → List Bytes
  redified [] = []
  redified (text ∷ texts) = paint red text ∷ redified texts

  abbrev warning_lines : List Bytes → Bytes
  warning_lines [] = []
  warning_lines (w ∷ ws) = str "\nWarnings:" ++ tabbed (redified (w ∷ ws))

  abbrev name_constraints_lines : ℤ → Option NameConstraints → Bytes
  name_constraints_lines width none = []
  name_constraints_lines width (some c) =
      str "\nName Constraints"
      ++ ((if c.critical then str " (critical)" else [])
          ++ (str ":"
              ++ (list_lines width (str "Permitted DNS domains") c.permitted_dns_domains
                  ++ (list_lines width (str "Permitted email addresses") c.permitted_email_addresses
                      ++ (list_lines width (str "Permitted IP ranges") c.permitted_ip_ranges
                          ++ (list_lines width (str "Permitted URI domains") c.permitted_uri_domains
                              ++ (list_lines width (str "Excluded DNS domains")
                                    c.excluded_dns_domains
                                  ++ (list_lines width (str "Excluded email addresses")
                                        c.excluded_email_addresses
                                      ++ (list_lines width (str "Excluded IP ranges")
                                            c.excluded_ip_ranges
                                          ++ list_lines width (str "Excluded URI domains")
                                              c.excluded_uri_domains)))))))))

  -- The lists of names at the end of both layouts.
  abbrev name_lines : SimpleCertificate → Bytes
  name_lines c =
      list_lines c.width (str "DNS Names") c.alt_dns_names
      ++ (list_lines c.width (str "IP Addresses") (show_ips c.alt_ip_addresses)
          ++ (list_lines c.width (str "URI Names") c.uri_names
              ++ (list_lines c.width (str "Email Addresses") c.email_addresses
                  ++ warning_lines c.warnings)))

  abbrev valid_line : SimpleCertificate → Bytes
  valid_line c =
      str "Valid: "
      ++ (cert_start paint format now c.not_before
          ++ (str " to " ++ cert_end paint format now c.not_after))

  unfoldable pub verbose_layout : SimpleCertificate → Bytes
  unfolding redified show_ips ext_usages
  verbose_layout c =
      alias_line c.alias
      ++ (str "Serial: "
          ++ (c.serial_number
              ++ (str "\n"
                  ++ (valid_line c
                      ++ (str "\nSignature: "
                          ++ (highlight_algorithm paint c.signature_algorithm
                              ++ ((if c.is_self_signed then str " (self-signed)" else [])
                                  ++ (str "\nSubject Info:"
                                      ++ (pkix_name c.subject.name.names
                                          ++ (str "\nIssuer Info:"
                                              ++ (pkix_name c.issuer.name.names
                                                  ++ (key_id_line (str "\nSubject Key ID: ")
                                                        c.subject.key_id
                                                      ++ (key_id_line (str "\nAuthority Key ID: ")
                                                            c.issuer.key_id
                                                          ++ (basic_constraints_line
                                                            c.basic_constraints
                                                            ++ (name_constraints_lines c.width
                                                            c.name_constraints
                                                            ++ (list_lines c.width
                                                            (str "OCSP Server(s)") c.ocsp_server
                                                            ++ (list_lines c.width
                                                            (str "Issuing Certificate URL(s)")
                                                            c.issuing_certificate_url
                                                            ++ (usage_lines c.key_usage
                                                            ++ (ext_usage_lines c.ext_key_usage
                                                            ++ name_lines c)))))))))))))))))))

  unfoldable pub short_layout : SimpleCertificate → Bytes
  unfolding redified show_ips
  short_layout c =
      alias_line c.alias
      ++ (valid_line c
          ++ (str "\nSubject:\n\t"
              ++ (wrap c.width (print_short_name c.subject.name)
                  ++ (str "\nIssuer:\n\t"
                      ++ (wrap c.width (print_short_name c.issuer.name) ++ name_lines c)))))

  unfoldable pub display_cert : SimpleCertificate → Bool → Bytes
  unfolding verbose_layout short_layout
  display_cert c verbose = if verbose then verbose_layout c else short_layout c

  module _ (check_signature : Certificate → Certificate → Option Bytes)
      (encode_to_memory : Block → Bytes) where
    -- A margin of 8 is left for the tab.
    unfoldable pub encode_x509_to_text : Certificate → ℕ → Bool → Bytes
    unfolding display_cert
    encode_x509_to_text cert terminal_width verbose =
        display_cert
          (record (create_simple_certificate check_signature encode_to_memory [] cert) {
            width = sub_ℕ terminal_width 8;
          })
          verbose
