-- ===== src/Cli/Connect/Accepts.antt =====
-- cli/cli.go: what the exit code of connect says, with `--verify`.
use certigo.Base.{
  ℕ, List, [], ◌≡◌, ◌≢◌, ◌↔◌, refl, sym, ap, ◌∙◌, Option, some, Bool, true, false, Bytes, value,
  error, Outcome, ok, err, panic, if◌then◌else◌, Bool-cases, Option-cases, inl, inr,
}
use certigo.X509.{Certificate, ConnectionState, RequestInfo}
use certigo.Terminal.{Terminal}
use certigo.Starttls.Connect.{Timers, get_connection_state}
use certigo.Verify.{VerifyOptions, SimpleVerification, print_verify_result}
use certigo.Verify.Verified.{IsVerified, verify_chain-IsVerified}
use certigo.Verify.Printing.{IsFilled, verify_chain-IsFilled, print_verify_result-IsText}
use certigo.Cli.{Host, Session, Exit, exits}
use certigo.Cli.Connect.{
  ConnectFlags, target_of, hostname, verify_code, finish_text, show_connect, tell_connect,
  connected, connect,
}
use certigo.Cli.Verify.Accepts.{error_code-zero, print_err-fails}

verify_code-zero :
    (asked : Bool) (result : SimpleVerification) → result.error ≡ [] → verify_code asked result ≡ 0
verify_code-zero true result he = rw he refl
verify_code-zero false result he = refl

module _ {W : Type 0} (H : Host W) where
  either :
      (b : Bool) (p q : Exit × Session W) {e : Exit}
      → p.0 ≡ e
      → q.0 ≡ e
      → (if b then p else q).0 ≡ e
  either true p q hp hq = hp
  either false p q hp hq = hq

  finish_text-exits :
      (code n : ℕ) (s : Session W) (o : Outcome Bytes Bytes)
      → (finish_text H code s o).0 ≡ exits n
      → code ≡ n
  finish_text-exits code n s (ok text) h = cc
  finish_text-exits code n s (err e) h = cc
  finish_text-exits code n s panic h = cc

  module _ (width : ℕ) (verbose : Bool) (flags : ConnectFlags) where
    -- However the result is told, the exit code is that of its error.
    show_connect-exits :
        (state : ConnectionState) (cri : Option RequestInfo) (result : SimpleVerification)
        (s : Session W) (n : ℕ)
        → (show_connect H width verbose flags state cri result s).0 ≡ exits n
        → verify_code flags.verify result ≡ n
    unfolding show_connect
    show_connect-exits state cri result s n = elim (Bool-cases flags.json) [
      | inl hj ↦ rw (hj, show_connect) (λ h. cc)
      | inr hj ↦ elim (Bool-cases flags.pem) [
        | inl hp ↦ rw (hj, show_connect, hp) (λ h. cc)
        | inr hp ↦
            rw (hj, show_connect, hp) (finish_text-exits _ n _ (print_verify_result H.paint result))
      ]
    ]

    show_connect-Trusts :
        (state : ConnectionState) (cri : Option RequestInfo) (result : SimpleVerification)
        (s : Session W)
        → result.error ≡ []
        → IsFilled result.chains
        → (show_connect H width verbose flags state cri result s).0 ≡ exits 0
    unfolding show_connect
    show_connect-Trusts state cri result s he hc =
        let (text, e) = print_verify_result-IsText H.paint result he hc in
        let code = ap exits (verify_code-zero flags.verify result he) in
        rw e (either flags.json _ _ code (either flags.pem _ _ code code))

  -- The connection comes to a state, and what the server shows verifies for the name.
  abbrev pub Trusts : Timers → Option RequestInfo → ConnectFlags → Type 0
  Trusts timers captured flags =
      (protocol : Bytes) × (identity : Bytes) × (state : ConnectionState) × (cri : Option
        RequestInfo)
      × (flags.start_tls ≡ some protocol)
      × (flags.identity ≡ some identity)
      × (get_connection_state H.network timers captured protocol (target_of flags identity)
            flags.proxy flags.timeout
          ≡ ok (state, cri))
      × IsVerified H.verifier state.peer_certificates (hostname flags) flags.ca_path

  module _ (tty : Terminal) (verbose : Bool) (flags : ConnectFlags) where
    module _ (asked : flags.verify ≡ true)
        (worded : (cert : Certificate) (options : VerifyOptions) (e : Bytes)
          → H.verifier.verify cert options ≡ error e
          → e ≢ []) where
      tell_connect-exits :
          (state : ConnectionState) (cri : Option RequestInfo)
          (o : Outcome Bytes SimpleVerification) (w : W) (s : Session W)
          → (tell_connect H tty.width verbose flags state cri (o, w) s).0 ≡ exits 0
          → (result : SimpleVerification) × (o ≡ ok result) × (result.error ≡ [])
      tell_connect-exits state cri (ok result) w s h = (
        result,
        refl,
        error_code-zero result.error (
            ap (λ b. verify_code b result) (sym asked)
            ∙ show_connect-exits tty.width verbose flags state cri result _ 0 h),
      )
      tell_connect-exits state cri (err e) w s h = absurd (cc)
      tell_connect-exits state cri panic w s h = absurd (cc)

      connected-exits :
          (o : Outcome Bytes (ConnectionState × Option RequestInfo)) (s : Session W)
          → (connected H tty.width verbose flags o s).0 ≡ exits 0
          → (state : ConnectionState) × (cri : Option RequestInfo) × (o ≡ ok (state, cri))
            × IsVerified H.verifier state.peer_certificates (hostname flags) flags.ca_path
      unfolding connected
      connected-exits (ok (state, cri)) s h =
          let (result, e, he) = tell_connect-exits state cri _ _ _ h in
          (
            state,
            cri,
            refl,
            verify_chain-IsVerified H.verifier worded state.peer_certificates state.ocsp_response _
                _ s.world e he,
          )
      connected-exits (err e) s h = absurd (print_err-fails H _ s h)
      connected-exits panic s h = absurd (cc)

      connect_exits-Trusts :
          (timers : Timers) (captured : Option RequestInfo) (s : Session W)
          → (connect H timers captured tty verbose flags s).0 ≡ exits 0
          → Trusts timers captured flags
      unfolding connect
      connect_exits-Trusts timers captured s = elim (Option-cases flags.start_tls) [
        | inl hs ↦ elim (Option-cases flags.identity) [
          | inl hi ↦ rw (hs, connect, hi) (λ h. absurd (cc))
          | inr (identity, hi) ↦ rw (hs, connect, hi) (λ h. absurd (print_err-fails H _ s h))
        ]
        | inr (protocol, hs) ↦ elim (Option-cases flags.identity) [
          | inl hi ↦ rw (hs, connect, hi) (λ h. absurd (cc))
          | inr (identity, hi) ↦
              rw (hs, connect, hi)
                (λ h.
                  let (state, cri, e, verified) = connected-exits _ s h in
                  (protocol, identity, state, cri, refl, refl, e, verified))
        ]
      ]

    module _
        (filled : (cert : Certificate) (options : VerifyOptions) (chains : List (List Certificate))
          → H.verifier.verify cert options ≡ value chains
          → IsFilled chains) where
      Trusts-connect :
          (timers : Timers) (captured : Option RequestInfo) (s : Session W)
          → Trusts timers captured flags
          → (connect H timers captured tty verbose flags s).0 ≡ exits 0
      unfolding connect connected
      Trusts-connect timers captured s (protocol, identity, state, cri, hs, hi, hc, verified) =
          let (result, e, he, hf) =
            verify_chain-IsFilled H.verifier filled state.peer_certificates state.ocsp_response
              (hostname flags) flags.ca_path s.world verified in
          rw (hs, connect, hi, hc, connected, e)
            (show_connect-Trusts tty.width verbose flags state cri result _ he hf)

    -- With `--verify`, where the library words each of its errors and finds no empty chain, connect
    -- ends with the exit code 0 exactly where the connection comes to a state and the certificates
    -- that the server has shown verify for the host's name, whether the output is text, PEM or JSON.
    pub connect-Trusts :
        flags.verify ≡ true
        → ((cert : Certificate) (options : VerifyOptions) (e : Bytes)
            → H.verifier.verify cert options ≡ error e
            → e ≢ [])
        → ((cert : Certificate) (options : VerifyOptions) (chains : List (List Certificate))
            → H.verifier.verify cert options ≡ value chains
            → IsFilled chains)
        → (timers : Timers) (captured : Option RequestInfo) (s : Session W)
        → ((connect H timers captured tty verbose flags s).0 ≡ exits 0)
          ↔ Trusts timers captured flags
    connect-Trusts asked worded filled timers captured s = (
      connect_exits-Trusts asked worded timers captured s,
      Trusts-connect filled timers captured s,
    )
