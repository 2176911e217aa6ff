-- ===== src/Cli/Verify/Accepts.antt =====
-- cli/cli.go: what the exit code of verify says.
use certigo.Base.{
  arith, ℕ, List, [], ◌∷◌, ◌≡◌, ◌≢◌, ◌↔◌, refl, ap, none, Bool, true, false, is_empty, Bytes, value,
  error, Outcome, ok, err, panic, if◌then◌else◌, not, Bool-cases, Result-cases, inl, inr,
}
use certigo.X509.{Certificate}
use certigo.Certs.Stream.{Input}
use certigo.Terminal.{Terminal}
use certigo.Verify.{VerifyOptions, SimpleVerification, print_verify_result}
use certigo.Verify.Verified.{IsVerified, verify_chain-IsVerified}
use certigo.Verify.Printing.{IsFilled, verify_chain-IsFilled, print_verify_result-IsText}
use certigo.Cli.{Host, Session, exits, stopped, print_err, input_file}
use certigo.Cli.Verify.{
  VerifyFlags, Reading, reading_passwords, read_chain, result_code, show_text, show_verify,
  tell_verify, chain_read, verify,
}

pub error_code-zero : (e : Bytes) → ◌≡◌ {A = ℕ} (if not (is_empty e) then 1 else 0) 0 → e ≡ []
error_code-zero [] h = refl
error_code-zero (b ∷ bs) h = absurd (omega (arith, h))

module _ {W : Type 0} (H : Host W) where
  -- What ends in an error is not a success.
  pub print_err-fails : (text : Bytes) (s : Session W) → (print_err H text s).0 ≢ exits 0
  unfolding print_err
  print_err-fails text s = elim (Bool-cases (H.is_broken text)) [
    | inl h ↦ rw h (λ p. cc)
    | inr h ↦ rw h (λ p. cc)
  ]

  stopped-fails : (s : Session W) → (stopped s).0 ≢ exits 0
  stopped-fails s = elim (Bool-cases s.gave_up) [ inl h ↦ rw h (λ p. cc) | inr h ↦ rw h (λ p. cc) ]

  show_text-exits :
      (code n : ℕ) (s : Session W) (o : Outcome Bytes Bytes)
      → (show_text H code s o).0 ≡ exits n
      → code ≡ n
  show_text-exits code n s (ok text) h = cc
  show_text-exits code n s (err e) h = cc
  show_text-exits code n s panic h = cc

  show_verify-exits :
      (json : Bool) (result : SimpleVerification) (s : Session W)
      → (show_verify H json result s).0 ≡ exits 0
      → result.error ≡ []
  unfolding show_verify
  show_verify-exits true result s h = error_code-zero result.error (cc)
  show_verify-exits false result s h =
      error_code-zero result.error
        (show_text-exits (result_code H result) 0 s (print_verify_result H.paint result) h)

  tell_verify-exits :
      (json : Bool) (o : Outcome Bytes SimpleVerification) (w : W) (s : Session W)
      → (tell_verify H json (o, w) s).0 ≡ exits 0
      → (result : SimpleVerification) × (o ≡ ok result) × (result.error ≡ [])
  tell_verify-exits json (ok result) w s h = (result, refl, show_verify-exits json result _ h)
  tell_verify-exits json (err e) w s h = absurd (cc)
  tell_verify-exits json panic w s h = absurd (cc)

  -- The input opens and reads without an error, as a chain that verifies.
  abbrev pub Accepts : Terminal → VerifyFlags → Session W → Type 0
  Accepts tty flags s =
      (file : Input) × (r : Reading W) × (input_file H flags.file ≡ value file)
      × (read_chain H (reading_passwords H tty flags.password) flags.kind file s ≡ (ok tt, r))
      × IsVerified H.verifier r.chain flags.name flags.ca_path

  module _
      (worded : (cert : Certificate) (options : VerifyOptions) (e : Bytes)
        → H.verifier.verify cert options ≡ error e
        → e ≢ []) where
    chain_read-exits :
        (flags : VerifyFlags) (o : Outcome Bytes (Unit {0})) (r : Reading W)
        → (chain_read H flags (o, r)).0 ≡ exits 0
        → (o ≡ ok tt) × IsVerified H.verifier r.chain flags.name flags.ca_path
    unfolding chain_read
    chain_read-exits flags (ok tt) r h =
        let (result, e, he) = tell_verify-exits flags.json _ _ _ h in
        (refl, verify_chain-IsVerified H.verifier worded r.chain none _ _ r.session.world e he)
    chain_read-exits flags (err e) r h = absurd (print_err-fails _ r.session h)
    chain_read-exits flags panic r h = absurd (stopped-fails r.session h)

    verify_exits-Accepts :
        (tty : Terminal) (flags : VerifyFlags) (s : Session W)
        → (verify H tty flags s).0 ≡ exits 0
        → Accepts tty flags s
    unfolding verify
    verify_exits-Accepts tty flags s = elim (Result-cases (input_file H flags.file)) [
      | inl (e, hf) ↦ rw (hf, verify) (λ h. absurd (print_err-fails _ s h))
      | inr (file, hf) ↦
          let read = read_chain H (reading_passwords H tty flags.password) flags.kind file s in
          rw (hf, verify)
            (λ h.
              let (done, verified) = chain_read-exits flags read.0 read.1 h in
              (file, read.1, refl, ap (λ o. (o, read.1)) done, verified))
    ]

  module _
      (filled : (cert : Certificate) (options : VerifyOptions) (chains : List (List Certificate))
        → H.verifier.verify cert options ≡ value chains
        → IsFilled chains) where
    show_verify-Accepts :
        (json : Bool) (result : SimpleVerification) (s : Session W)
        → result.error ≡ []
        → IsFilled result.chains
        → (show_verify H json result s).0 ≡ exits 0
    unfolding show_verify
    show_verify-Accepts true result s he hc = rw he refl
    show_verify-Accepts false result s he hc =
        let (text, e) = print_verify_result-IsText H.paint result he hc in rw (e, he) refl

    Accepts-verify :
        (tty : Terminal) (flags : VerifyFlags) (s : Session W)
        → Accepts tty flags s
        → (verify H tty flags s).0 ≡ exits 0
    unfolding verify chain_read
    Accepts-verify tty flags s (file, r, hf, hr, verified) =
        let (result, e, he, hc) =
          verify_chain-IsFilled H.verifier filled r.chain none flags.name flags.ca_path
            r.session.world verified in
        rw (hf, verify, hr, chain_read, e) (show_verify-Accepts flags.json result _ he hc)

  -- Where the library words each of its errors and finds no empty chain, verify ends with the exit
  -- code 0 exactly where the input opens, reading it gives no error, and it has a chain
  -- whose first certificate the library verifies for the name, with the others as intermediates,
  -- against the roots of the bundle.
  pub verify-Accepts :
      ((cert : Certificate) (options : VerifyOptions) (e : Bytes)
        → H.verifier.verify cert options ≡ error e
        → e ≢ [])
      → ((cert : Certificate) (options : VerifyOptions) (chains : List (List Certificate))
          → H.verifier.verify cert options ≡ value chains
          → IsFilled chains)
      → (tty : Terminal) (flags : VerifyFlags) (s : Session W)
      → ((verify H tty flags s).0 ≡ exits 0) ↔ Accepts tty flags s
  verify-Accepts worded filled tty flags s =
      (verify_exits-Accepts worded tty flags s, Accepts-verify filled tty flags s)
