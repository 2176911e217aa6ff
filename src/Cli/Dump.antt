-- ===== src/Cli/Dump.antt =====
-- cli/cli.go: the command dump. The error of `inputFiles` is overwritten by that of the reading.
pub mod Codes
pub mod Total
pub mod Unopened
pub mod Prints
pub mod Shows
use certigo.Base.{
  ℕ, zero, suc, List, [], ◌∷◌, ◌++◌, Option, none, some, Bool, true, false, is_empty, Bytes, str,
  Result, value, error, Outcome, ok, err, panic, if◌then◌else◌, not, ◌&&◌,
}
use certigo.X509.{Certificate}
use certigo.Certs.{Block, trim_newline}
use certigo.Certs.Stream.{Input, Passwords, OnBlock, OnCertificate}
use certigo.Certs.Inputs.{read_as_pem_from_files, read_as_x509_from_files}
use certigo.Terminal.{Terminal}
use certigo.Verify.Json.{SimpleResult}
use certigo.Cli.{
  Host, Session, Exit, exits, crashes, stopped, passwords, put, print_line, warn_request, print_err,
  print_warning, input_files, result_json, certificate_title, certificate_text,
}

pub record DumpFlags : Type 0 where
  pub files : Option (List Bytes)
  pub kind : Bytes
  pub password : Bytes
  pub pem : Bool
  pub json : Bool

-- The files that are read: none where one of them cannot be opened.
abbrev pub files_read : Result Bytes (List Input) → List Input
files_read (value files) = files
files_read (error e) = []

module _ {W : Type 0} where
  -- The callback of the other formats. No call comes without both a certificate and an error.
  abbrev pub collect : OnCertificate (Session W)
  collect cert format (some e) s =
      (err (str "error parsing block: " ++ (trim_newline e ++ str "\n")), s)
  collect none format none s = (panic, s)
  collect (some cert) format none s = (
    ok tt,
    record s {
      result = record s.result {
        certificates = s.result.certificates ++ cert ∷ [];
        formats = s.result.formats ++ format ∷ [];
      };
    },
  )

  module _ (H : Host W) where
    -- The callback of `--pem`.
    abbrev pub print_block : OnBlock (Session W)
    print_block block format s = elim (H.pem_encode (record block { headers = [] })) [
      | error e ↦ (err e, s)
      | value text ↦ (ok tt, put text s)
    ]

    -- A format that is missing is out of range.
    unfoldable pub dump_text : ℕ → Bool → ℕ → List Certificate → List Bytes → Outcome Bytes Bytes
    dump_text width verbose i [] formats = ok []
    dump_text width verbose i (cert ∷ certs) [] = panic
    dump_text width verbose i (cert ∷ certs) (format ∷ formats) =
        elim (dump_text width verbose (suc i) certs formats) [
          | ok text ↦ ok (
              certificate_title i
              ++ (str "Input Format: "
                  ++ (format ++ (str "\n" ++ (certificate_text H width verbose cert ++ text)))))
          | err e ↦ err e
          | panic ↦ panic
        ]

    unfoldable pub finish_dump : Bool → Outcome Bytes (Unit {0}) → Session W → Exit × Session W
    unfolding print_err
    finish_dump pem panic s = stopped s
    finish_dump pem (err e) s = print_err H (str "error: " ++ (trim_newline e ++ str "\n")) s
    finish_dump pem (ok _) s =
        if is_empty s.result.certificates && not pem
        then (exits 0, print_warning H (str "warning: no certificates found in input\n") s)
        else (exits 0, s)

    -- The certificates read so far are shown in front of an error.
    unfoldable pub show_dump :
        ℕ → Bool → Bool → Outcome Bytes (Unit {0}) × Session W → Exit × Session W
    unfolding finish_dump dump_text
    show_dump width verbose json (panic, s) = stopped s
    show_dump width verbose true (read, s) =
        finish_dump false read (print_line (result_json H s.result) s)
    show_dump width verbose false (read, s) =
        elim (dump_text width verbose 0 s.result.certificates s.result.formats) [
          | ok text ↦ finish_dump false read (put text s)
          | err e ↦ (crashes, s)
          | panic ↦ (crashes, s)
        ]

    abbrev pub dump_pem : Passwords (Session W) → List Input → Bytes → Session W → Exit × Session W
    dump_pem password files kind s =
        let (read, t) =
          read_as_pem_from_files H.verifier.libraries password files kind print_block s in
        finish_dump true read t

    abbrev pub dump_x509 :
        ℕ → Bool → Bool → Passwords (Session W) → List Input → Bytes → Session W → Exit × Session W
    dump_x509 width verbose json password files kind s = show_dump width verbose json (
        read_as_x509_from_files H.verifier.libraries password (λ t. (ok tt, warn_request H.paint t))
          files kind collect s)

    unfoldable pub dump : Terminal → Bool → DumpFlags → Session W → Exit × Session W
    unfolding input_files finish_dump show_dump
    dump tty verbose flags s =
        let files = files_read (input_files H flags.files) in
        let password = passwords H tty flags.password in
        if flags.pem
        then dump_pem password files flags.kind s
        else dump_x509 tty.width verbose flags.json password files flags.kind s
