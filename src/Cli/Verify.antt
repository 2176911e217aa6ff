-- ===== src/Cli/Verify.antt =====
-- cli/cli.go: the command verify.
pub mod Codes
pub mod Accepts
use certigo.Base.{
  ℕ, List, [], ◌∷◌, ◌++◌, Option, none, some, Bool, true, false, is_empty, Bytes, str, Result,
  value, error, Outcome, ok, err, panic, if◌then◌else◌, not,
}
use certigo.X509.{Certificate}
use certigo.Certs.{trim_newline}
use certigo.Certs.Stream.{Input, Passwords, OnCertificate}
use certigo.Certs.Inputs.{read_as_x509_from_files}
use certigo.Terminal.{Terminal}
use certigo.Verify.{SimpleVerification, verify_chain, chain_warnings, print_verify_result}
use certigo.Cli.{
  Host, Session, Exit, exits, crashes, stopped, passwords, quit, put, print_line, warn_request,
  warn_requests, print_err, input_file,
}

pub record VerifyFlags : Type 0 where
  pub file : Bytes
  pub kind : Bytes
  pub password : Bytes
  pub name : Bytes
  pub ca_path : Bytes
  pub json : Bool

-- The chain that the callback adds to, beside the session.
pub record Reading (W : Type 0) : Type 0 where
  pub chain : List Certificate
  pub session : Session W

module _ {W : Type 0} where
  -- No call of the callback comes without both a certificate and an error.
  abbrev pub add_to_chain : OnCertificate (Reading W)
  add_to_chain cert format (some e) r = (err e, r)
  add_to_chain none format none r = (panic, r)
  add_to_chain (some cert) format none r = (ok tt, record r { chain = r.chain ++ cert ∷ [] })

  module _ (H : Host W) where
    abbrev pub reading_passwords : Terminal → Bytes → Passwords (Reading W)
    reading_passwords tty password = record {
      read = (passwords H tty password).read;
      give_up = λ e r. record r { session = quit H e r.session };
    }

    abbrev pub read_chain :
        Passwords (Reading W) → Bytes → Input → Session W → Outcome Bytes (Unit {0}) × Reading W
    read_chain password kind file s =
        read_as_x509_from_files H.verifier.libraries password
          (λ r. (ok tt, record r { session = warn_request H.paint r.session })) (file ∷ []) kind
          add_to_chain (record { chain = []; session = s })

    abbrev pub result_code : SimpleVerification → ℕ
    result_code result = if not (is_empty result.error) then 1 else 0

    abbrev pub show_text : ℕ → Session W → Outcome Bytes Bytes → Exit × Session W
    show_text code s (ok text) = (exits code, put text s)
    show_text code s (err e) = (crashes, s)
    show_text code s panic = (crashes, s)

    unfoldable pub show_verify : Bool → SimpleVerification → Session W → Exit × Session W
    show_verify json result s =
        if json
        then (exits (result_code result), print_line (H.verification_json result) s)
        else show_text (result_code result) s (print_verify_result H.paint result)

    -- `VerifyChain` has no error of its own.
    abbrev pub tell_verify :
        Bool → Outcome Bytes SimpleVerification × W → Session W → Exit × Session W
    tell_verify json (panic, w) s = (crashes, record s { world = w })
    tell_verify json (err e, w) s = (crashes, record s { world = w })
    tell_verify json (ok result, w) s = show_verify json result (record s { world = w })

    unfoldable pub chain_read :
        VerifyFlags → Outcome Bytes (Unit {0}) × Reading W → Exit × Session W
    unfolding print_err show_verify
    chain_read flags (panic, r) = stopped r.session
    chain_read flags (err e, r) =
        print_err H (str "error parsing block: " ++ (trim_newline e ++ str "\n")) r.session
    chain_read flags (ok _, r) =
        tell_verify flags.json
          (verify_chain H.verifier r.chain none flags.name flags.ca_path r.session.world)
          (warn_requests H.paint (chain_warnings H.verifier r.chain flags.ca_path) r.session)

    unfoldable pub verify : Terminal → VerifyFlags → Session W → Exit × Session W
    unfolding input_file print_err chain_read
    verify tty flags s = elim (input_file H flags.file) [
      | error e ↦ print_err H (e ++ str "\n") s
      | value file ↦
          chain_read flags (read_chain (reading_passwords tty flags.password) flags.kind file s)
    ]
