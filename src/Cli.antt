-- ===== src/Cli.antt =====
-- cli/cli.go: the session of a run, its inputs and its errors. The libraries, the network, the console
-- and the files are parameters.
pub mod Codes
pub mod Dump
pub mod Connect
pub mod Verify
pub mod Run
use certigo.Base.{
  ℕ, zero, suc, List, [], ◌∷◌, ◌++◌, Option, none, some, Bool, true, false, is_empty, Bytes, str,
  Result, value, error, Outcome, ok, err, panic, if◌then◌else◌,
}
use certigo.Base.Digits.{decimal}
use certigo.Base.Int.{ℤ}
use certigo.X509.{Certificate, Name, ConnectionState, RequestInfo}
use certigo.Certs.{Block, trim_newline}
use certigo.Terminal.{Terminal}
use certigo.Certs.Stream.{Passwords, Input, OnBlock, OnCertificate}
use certigo.Display.{Color}
use certigo.Display.Text.{encode_x509_to_text}
use certigo.Encoder.Certificates.{SimpleCertificate}
use certigo.Starttls.Connect.{Network}
use certigo.Verify.{Verifier, SimpleVerification}
use certigo.Verify.Json.{SimpleResult, ResultObject, marshal_json}

-- What a run works with. `pem_encode` gives what `pem.Encode` writes, `to_json` and
-- `verification_json` are `json.Marshal` of the two results, and `is_broken` tells whether a write of
-- a text to the error stream fails.
pub record Host (W : Type 0) : Type 1 where
  pub verifier : Verifier W
  pub network : Network
  pub stdin : Bytes × Option Bytes
  pub is_broken : Bytes → Bool
  pub pem_encode : Block → Result Bytes Bytes
  pub to_json : ResultObject → Bytes
  pub verification_json : SimpleVerification → Bytes
  pub parse_raw_subject : Bytes → Result Bytes Name
  pub paint : Color → Bytes → Bytes
  pub format : ℤ → Bytes
  pub wrap : ℤ → Bytes → Bytes
  pub show_ip : Bytes → Bytes
  pub now : ℤ

-- `output` and `errors` are the streams of the terminal; `stdout` is what `fmt.Println` writes.
-- `gave_up` says that the program has ended by `os.Exit(1)`, where it could not read a password.
pub record Session (W : Type 0) : Type 0 where
  pub output : Bytes
  pub errors : Bytes
  pub stdout : Bytes
  pub result : SimpleResult
  pub world : W
  pub gave_up : Bool

-- What `Run` comes to: an exit code, or a panic.
pub data Exit : Type 0 where
  exits : ℕ → Exit
  crashes : Exit

-- How a run ends that does not go on.
abbrev pub stopped : {W : Type 0} → Session W → Exit × Session W
stopped s = if s.gave_up then (exits 1, s) else (crashes, s)

-- No password is set by the empty text.
abbrev pub default_password : Bytes → Option Bytes
default_password [] = none
default_password (b ∷ bs) = some (b ∷ bs)

abbrev pub certificate_title : ℕ → Bytes
certificate_title i = str "** CERTIFICATE " ++ (decimal (suc i) ++ str " **\n")

module _ {W : Type 0} where
  abbrev pub put : Bytes → Session W → Session W
  put text s = record s { output = s.output ++ text }

  abbrev pub print_line : Bytes → Session W → Session W
  print_line text s = record s { stdout = s.stdout ++ (text ++ str "\n") }

  abbrev pub warn_request : (Color → Bytes → Bytes) → Session W → Session W
  warn_request paint s =
      print_line (paint Color.red (str "warning: certificate requests are not supported")) s

  -- The warnings that `VerifyChain` prints.
  abbrev pub warn_requests : (Color → Bytes → Bytes) → ℕ → Session W → Session W
  warn_requests paint zero s = s
  warn_requests paint (suc n) s = warn_requests paint n (warn_request paint s)

  module _ (H : Host W) where
    open H use {
      verifier, stdin, is_broken, to_json, parse_raw_subject, paint, format, wrap, show_ip, now,
    }
    open verifier use {open_file, check_signature, encode_to_memory}

    -- The exit code says whether the error could be written.
    unfoldable pub print_err : Bytes → Session W → Exit × Session W
    print_err text s =
        if is_broken text then (exits 3, s) else (exits 2, record s { errors = s.errors ++ text })

    -- `print_err` where its code is left aside.
    abbrev pub print_warning : Bytes → Session W → Session W
    unfolding print_err
    print_warning text s = (print_err text s).1

    -- `ReadPassword` where it cannot read.
    abbrev pub quit : Bytes → Session W → Session W
    unfolding print_err
    quit text s = record (print_warning text s) { gave_up = true }

    abbrev pub passwords : Terminal → Bytes → Passwords (Session W)
    passwords tty password = record {
      read = tty.password (default_password password);
      give_up = quit;
    }

    abbrev pub from_stdin : Input
    from_stdin = record { name = str "/dev/stdin"; content = stdin.0; failure = stdin.1 }

    abbrev pub opened_file : Bytes → Result Bytes (Bytes × Option Bytes) → Result Bytes Input
    opened_file name (error e) = error (str "unable to open file: " ++ (e ++ str "\n"))
    opened_file name (value (content, failure)) =
        value (record { name = name; content = content; failure = failure })

    unfoldable pub input_file : Bytes → Result Bytes Input
    input_file [] = value from_stdin
    input_file (b ∷ bs) = opened_file (b ∷ bs) (open_file (b ∷ bs))

    unfoldable pub open_files : List Bytes → Result Bytes (List Input)
    open_files [] = value []
    open_files (name ∷ names) = elim (opened_file name (open_file name)) [
      | error e ↦ error e
      | value input ↦ elim (open_files names) [
        | error e ↦ error e
        | value inputs ↦ value (input ∷ inputs)
      ]
    ]

    -- No list of names is Go's nil.
    unfoldable pub input_files : Option (List Bytes) → Result Bytes (List Input)
    unfolding open_files
    input_files none = value (from_stdin ∷ [])
    input_files (some names) = open_files names

    -- `json.Marshal` of the result, where an error leaves no text.
    abbrev pub result_json : SimpleResult → Bytes
    result_json result =
        elim (marshal_json check_signature encode_to_memory parse_raw_subject result) [
          | error e ↦ []
          | value object ↦ to_json object
        ]

    abbrev pub certificate_text : ℕ → Bool → Certificate → Bytes
    certificate_text width verbose cert =
        encode_x509_to_text paint format wrap show_ip now check_signature encode_to_memory cert
          width verbose
        ++ str "\n\n"
