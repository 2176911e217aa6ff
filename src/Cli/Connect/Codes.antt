-- ===== src/Cli/Connect/Codes.antt =====
-- cli/cli.go: the exit codes of connect.
use certigo.Base.{
  ℕ, Option, Option-cases, Bool, is_empty, Bytes, str, Outcome, ok, err, panic, not, inl, inr,
}
use certigo.X509.{ConnectionState, RequestInfo}
use certigo.Certs.{trim_newline}
use certigo.Starttls.Connect.{Timers}
use certigo.Terminal.{Terminal}
use certigo.Verify.{SimpleVerification, print_verify_result}
use certigo.Cli.{Host, Session, exits}
use certigo.Cli.Connect.{
  ConnectFlags, verify_code, finish_text, show_connect, tell_connect, connected, connect,
}
use certigo.Cli.Codes.{
  append-filled, IsDocumented, crashes-IsDocumented, if-IsDocumented, print_err-IsDocumented,
  told-IsDocumented,
}

module _ {W : Type 0} (H : Host W) (refused : Type 0) where
  module _ (flags : ConnectFlags) where
    finish_text-IsDocumented :
        (result : SimpleVerification) (s : Session W) (o : Outcome Bytes Bytes)
        → IsDocumented H refused flags.verify (finish_text H (verify_code flags.verify result) s o)
    finish_text-IsDocumented result s (ok text) =
        told-IsDocumented H refused flags.verify (not (is_empty result.error)) _
    finish_text-IsDocumented result s (err e) = crashes-IsDocumented H refused flags.verify s
    finish_text-IsDocumented result s panic = crashes-IsDocumented H refused flags.verify s

    tell_connect-IsDocumented :
        (width : ℕ) (verbose : Bool) (state : ConnectionState) (cri : Option RequestInfo)
        (o : Outcome Bytes SimpleVerification) (w : W) (s : Session W)
        → IsDocumented H refused flags.verify
            (tell_connect H width verbose flags state cri (o, w) s)
    unfolding show_connect
    tell_connect-IsDocumented width verbose state cri panic w s =
        crashes-IsDocumented H refused flags.verify _
    tell_connect-IsDocumented width verbose state cri (err e) w s =
        crashes-IsDocumented H refused flags.verify _
    tell_connect-IsDocumented width verbose state cri (ok result) w s =
        let told : (t : Session W)
            → IsDocumented H refused flags.verify (exits (verify_code flags.verify result), t) =
          told-IsDocumented H refused flags.verify (not (is_empty result.error)) in
        if-IsDocumented H refused flags.verify flags.json _ _ (told _) (
          if-IsDocumented H refused flags.verify flags.pem _ _ (told _)
            (finish_text-IsDocumented result _ (print_verify_result H.paint result)))

    connected-IsDocumented :
        (width : ℕ) (verbose : Bool) (o : Outcome Bytes (ConnectionState × Option RequestInfo))
        (s : Session W)
        → IsDocumented H refused flags.verify (connected H width verbose flags o s)
    unfolding connected
    connected-IsDocumented width verbose panic s = crashes-IsDocumented H refused flags.verify s
    connected-IsDocumented width verbose (err e) s =
        print_err-IsDocumented H refused flags.verify _ s
          (append-filled (trim_newline e) (str "\n") (λ p. cc))
    connected-IsDocumented width verbose (ok (state, cri)) s =
        tell_connect-IsDocumented width verbose state cri _ _ _

    pub connect-IsDocumented :
        (timers : Timers) (captured : Option RequestInfo) (tty : Terminal) (verbose : Bool)
        (s : Session W)
        → IsDocumented H refused flags.verify (connect H timers captured tty verbose flags s)
    unfolding connect
    connect-IsDocumented timers captured tty verbose s = elim (Option-cases flags.start_tls) [
      | inl hs ↦ elim (Option-cases flags.identity) [
        | inl hi ↦ rw (hs, connect, hi) (crashes-IsDocumented H refused flags.verify s)
        | inr (identity, hi) ↦
            rw (hs, connect, hi) (print_err-IsDocumented H refused flags.verify _ s (λ p. cc))
      ]
      | inr (protocol, hs) ↦ elim (Option-cases flags.identity) [
        | inl hi ↦ rw (hs, connect, hi) (crashes-IsDocumented H refused flags.verify s)
        | inr (identity, hi) ↦ rw (hs, connect, hi) (connected-IsDocumented tty.width verbose _ s)
      ]
    ]
