-- ===== src/Verify.antt =====
-- lib/verify.go: the CA bundle, `VerifyChain`, and the text of its result. The verification of
-- crypto/x509 and the colours are parameters.
pub mod Chains
pub mod Json
pub mod Verified
pub mod Printing
use certigo.Base.{
  crash, is_empty, ℕ, zero, suc, List, [], ◌∷◌, ◌++◌, Option, none, some, Bool, true, false, not,
  Bytes, str, length, Result, value, error, Outcome, ok, err, panic, M, pure, fail, map, ◌==◌,
  if◌then◌else◌,
}
use certigo.Base.Digits.{decimal}
use certigo.X509.{Certificate}
use certigo.Certs.{Block}
use certigo.Certs.Stream.{Libraries, Passwords, Input, OnCertificate, encode_x509_to_pem}
use certigo.Certs.Inputs.{read_as_x509_from_files}
use certigo.Encoder.{alg_string, bad_signature_algorithms, lookup_code}
use certigo.Encoder.Certificates.{is_self_signed}
use certigo.Oids.{print_common_name}
use certigo.Display.{Color, green, yellow, red}
use certigo.Ocsp.{Servers, Response, Failure, skipped_revocation_check, failed, check_ocsp}

pub record SimpleVerifyCert : Type 0 where
  pub name : Bytes
  pub is_self_signed : Bool
  pub pem : Bytes
  pub signature_algorithm : ℕ

-- No error is the empty text.
pub record SimpleVerification : Type 0 where
  pub error : Bytes
  pub ocsp_status : Option Response
  pub ocsp_was_stapled : Bool
  pub ocsp_error : Bytes
  pub chains : List (List SimpleVerifyCert)

-- `x509.VerifyOptions`; no pool of roots stands for the system's.
pub record VerifyOptions : Type 0 where
  pub dns_name : Bytes
  pub roots : Option (List Certificate)
  pub intermediates : List Certificate

pub record Verifier (W : Type 0) : Type 1 where
  pub libraries : Libraries
  pub servers : Servers W
  pub open_file : Bytes → Result Bytes (Bytes × Option Bytes)
  pub verify : Certificate → VerifyOptions → Result Bytes (List (List Certificate))
  pub check_signature : Certificate → Certificate → Option Bytes
  pub encode_to_memory : Block → Bytes

-- What the reading of `caBundle` changes: the pool, and how many certificate requests it has warned of.
pub record Bundle : Type 0 where
  pub pool : List Certificate
  pub warnings : ℕ

-- The callback of `caBundle`.
abbrev pub add_to_bundle : OnCertificate Bundle
add_to_bundle cert format (some e) bundle =
    (err (str "error parsing CA bundle: " ++ (e ++ str "\n")), bundle)
add_to_bundle (some cert) format none bundle =
    (ok tt, record bundle { pool = bundle.pool ++ cert ∷ [] })
add_to_bundle none format none bundle = (panic, bundle)

abbrev pub count_warning : M Bundle Bytes (Unit {0})
count_warning bundle = (ok tt, record bundle { warnings = suc bundle.warnings })

abbrev pub bundle_read :
    Outcome Bytes (Unit {0}) × Bundle → Outcome Bytes (Option (List Certificate))
bundle_read (ok _, bundle) = ok (some bundle.pool)
bundle_read (err e, bundle) = err (str "error parsing CA bundle: " ++ (e ++ str "\n"))
bundle_read (panic, bundle) = panic

abbrev pub stapled : Option Bytes → Bool
stapled none = false
stapled (some staple) = true

abbrev pub staple_bytes : Option Bytes → Bytes
staple_bytes none = []
staple_bytes (some staple) = staple

abbrev pub unverified : Option Bytes → SimpleVerification
unverified staple = record {
  error = [];
  ocsp_status = none;
  ocsp_was_stapled = stapled staple;
  ocsp_error = [];
  chains = [];
}

-- What the check of a chain changes in the result.
abbrev pub note_ocsp : Result Failure Response → SimpleVerification → SimpleVerification
note_ocsp (value status) result = record result { ocsp_status = some status }
note_ocsp (error skipped_revocation_check) result = result
note_ocsp (error (failed e)) result = record result { ocsp_error = e }

module _ {W : Type 0} (V : Verifier W) where
  open V use {libraries, servers, open_file, verify, check_signature, encode_to_memory}

  abbrev pub bundle_password : Passwords Bundle
  bundle_password = record { read = λ prompt. value (str "changeit"); give_up = λ e bundle. bundle }

  abbrev pub read_bundle : Bytes → Bytes × Option Bytes → Outcome Bytes (Unit {0}) × Bundle
  read_bundle ca_path (content, failure) =
      read_as_x509_from_files libraries bundle_password count_warning
        (record { name = ca_path; content = content; failure = failure } ∷ []) [] add_to_bundle
        (record { pool = []; warnings = 0 })

  unfoldable pub ca_bundle : Bytes → Outcome Bytes (Option (List Certificate))
  ca_bundle [] = ok none
  ca_bundle (b ∷ bs) = elim (open_file (b ∷ bs)) [
    | error e ↦ err (str "error opening CA bundle " ++ ((b ∷ bs) ++ (str ": " ++ (e ++ str "\n"))))
    | value content ↦ bundle_read (read_bundle (b ∷ bs) content)
  ]

  -- How often `caBundle` prints the warning that certificate requests are not supported.
  unfoldable pub bundle_warnings : Bytes → ℕ
  bundle_warnings [] = 0
  bundle_warnings (b ∷ bs) = elim (open_file (b ∷ bs)) [
    | error e ↦ 0
    | value content ↦ (read_bundle (b ∷ bs) content).1.warnings
  ]

  unfoldable pub simple_verify_cert : Certificate → SimpleVerifyCert
  simple_verify_cert cert = record {
    name = print_common_name cert.subject;
    is_self_signed = is_self_signed check_signature cert;
    pem = encode_to_memory (encode_x509_to_pem cert []);
    signature_algorithm = cert.signature_algorithm;
  }

  abbrev pub add_chain : List Certificate → SimpleVerification → SimpleVerification
  add_chain chain result = record result {
    chains = result.chains ++ map simple_verify_cert chain ∷ [];
  }

  unfoldable pub check_chains :
      List (List Certificate) → Bytes → SimpleVerification → W → SimpleVerification × W
  unfolding simple_verify_cert
  check_chains [] staple result w = (result, w)
  check_chains (chain ∷ chains) staple result w =
      let (status, w₁) = check_ocsp servers chain staple w in
      check_chains chains staple (add_chain chain (note_ocsp status result)) w₁

  abbrev pub verify_with :
      SimpleVerification
      → Certificate
      → List Certificate
      → Bytes
      → Bytes
      → Option (List Certificate)
      → W
      → Outcome Bytes SimpleVerification × W
  verify_with result cert others staple dns_name roots w =
      elim (verify cert (record { dns_name = dns_name; roots = roots; intermediates = others })) [
        | error e ↦ (ok (record result { error = e }), w)
        | value chains ↦ let (checked, w₁) = check_chains chains staple result w in (ok checked, w₁)
      ]

  -- A panic of the bundle's reading ends the program.
  unfoldable pub verify_chain :
      List Certificate → Option Bytes → Bytes → Bytes → W → Outcome Bytes SimpleVerification × W
  unfolding ca_bundle check_chains
  verify_chain certs ocsp_staple dns_name ca_path w =
      let result = unverified ocsp_staple in
      elim certs [
        | [] ↦ (ok (record result { error = str "no certificates found" }), w)
        | cert ∷ others ↦ elim (ca_bundle ca_path) [
          | panic ↦ (panic, w)
          | err e ↦ (ok (record result { error = e }), w)
          | ok roots ↦ verify_with result cert others (staple_bytes ocsp_staple) dns_name roots w
        ]
      ]

  -- How often `VerifyChain` prints that warning.
  unfoldable pub chain_warnings : List Certificate → Bytes → ℕ
  chain_warnings [] ca_path = 0
  chain_warnings (cert ∷ certs) ca_path = bundle_warnings ca_path

abbrev pub revocation_status : ℕ → Bytes × Color
revocation_status zero = (str "Good", green)
revocation_status (suc zero) = (str "Revoked", red)
revocation_status (suc (suc n)) = (str "Unknown", yellow)

-- The reasons of RFC 5280; 7 is not used.
abbrev pub revocation_reasons : List (ℕ × Bytes)
revocation_reasons =
    (0, str "Unspecified")
    ∷ (1, str "KeyCompromise")
    ∷ (2, str "CACompromise")
    ∷ (3, str "AffiliationChanged")
    ∷ (4, str "Superseded")
    ∷ (5, str "CessationOfOperation")
    ∷ (6, str "CertificateHold")
    ∷ (8, str "RemoveFromCRL")
    ∷ (9, str "PrivilegeWithdrawn")
    ∷ (10, str "AACompromise")
    ∷ []

abbrev pub reason_text : Option Bytes → Bytes
reason_text (some reason) = reason
reason_text none = str "Unknown"

-- `paint` puts the codes of a colour around a text.
module _ (paint : Color → Bytes → Bytes) where
  unfoldable pub mark_algorithm : List ℕ → ℕ → Bytes
  mark_algorithm [] algorithm = []
  mark_algorithm (bad ∷ bads) algorithm =
      let rest = mark_algorithm bads algorithm in
      if algorithm == bad then paint red (str " [" ++ (alg_string bad ++ str "]")) else rest

  unfoldable pub fmt_cert : SimpleVerifyCert → Bytes
  unfolding mark_algorithm
  fmt_cert cert =
      cert.name
      ++ ((if cert.is_self_signed then paint green (str " [self-signed]") else [])
          ++ mark_algorithm bad_signature_algorithms cert.signature_algorithm)

  unfoldable pub print_links : List SimpleVerifyCert → Bytes
  print_links [] = []
  print_links (cert ∷ certs) = str "\t=> " ++ (fmt_cert cert ++ (str "\n" ++ print_links certs))

  -- The first certificate of an empty chain is out of range.
  unfoldable pub print_chains : ℕ → List (List SimpleVerifyCert) → Outcome Bytes Bytes
  unfolding print_links fmt_cert
  print_chains i [] = ok []
  print_chains i ([] ∷ chains) = panic
  print_chains i ((cert ∷ certs) ∷ chains) = elim (print_chains (suc i) chains) [
    | ok text ↦ ok (
        str "["
        ++ (decimal i
            ++ (str "] " ++ (fmt_cert cert ++ (str "\n" ++ (print_links certs ++ text))))))
    | err e ↦ err e
    | panic ↦ panic
  ]

  unfoldable pub print_certificate_chains : SimpleVerification → Outcome Bytes Bytes
  unfolding print_chains
  print_certificate_chains result = elim (print_chains 0 result.chains) [
    | ok text ↦ ok (
        paint green
          (str "Found " ++ (decimal (length result.chains) ++ str " valid certificate chain(s):\n"))
        ++ text)
    | err e ↦ err e
    | panic ↦ panic
  ]

  unfoldable pub print_status : Response → Bool → Bytes
  unfolding lookup_code
  print_status response was_stapled =
      let (status, color) = revocation_status response.status in
      paint color (
        str "Checked OCSP status for certificate"
        ++ ((if was_stapled then str " (was stapled)" else []) ++ str ", got:"))
      ++ (str "\n\t"
          ++ (status
              ++ (str " (last update: "
                  ++ (response.produced_at
                      ++ (str ")"
                          ++ ((if response.status == 1
                                then str "\n\tWas revoked at "
                                  ++ (response.revoked_at
                                      ++ (str " due to: "
                                          ++ reason_text (
                                              lookup_code response.revocation_reason
                                                revocation_reasons)))
                                else [])
                              ++ str "\n\n"))))))

  abbrev pub print_ocsp_status : SimpleVerification → Bytes
  print_ocsp_status result =
      if not (is_empty result.ocsp_error)
      then paint red (str "Certificate has OCSP extension, but was unable to check status:\n")
        ++ (str "\t" ++ (result.ocsp_error ++ str "\n\n"))
      else elim result.ocsp_status [
        | none ↦ []
        | some response ↦ print_status response result.ocsp_was_stapled
      ]

  unfoldable pub print_verify_result : SimpleVerification → Outcome Bytes Bytes
  unfolding print_certificate_chains print_status
  print_verify_result result =
      if not (is_empty result.error)
      then ok (
          paint red (str "Failed to verify certificate chain:\n")
          ++ (str "\t" ++ (result.error ++ str "\n")))
      else elim (print_certificate_chains result) [
        | ok text ↦ ok (print_ocsp_status result ++ text)
        | err e ↦ err e
        | panic ↦ panic
      ]
