-- ===== src/Cli/Verify/Codes.antt =====
-- cli/cli.go: the exit codes of verify.
use certigo.Base.{
  Option, some, none, [], ◌∷◌, true, is_empty, Bytes, str, Result-cases, Outcome, ok, err, panic,
  not, inl, inr,
}
use certigo.X509.{Certificate}
use certigo.Certs.Stream.{Input}
use certigo.Certs.Inputs.Keeps.{read_as_x509_from_files-kept}
use certigo.Terminal.{Terminal}
use certigo.Verify.{SimpleVerification, print_verify_result}
use certigo.Cli.{Host, Session, default_password, input_file}
use certigo.Cli.Verify.{
  VerifyFlags, Reading, read_chain, reading_passwords, add_to_chain, result_code, show_text,
  show_verify, tell_verify, chain_read, verify,
}
use certigo.Cli.Codes.{
  append-filled, Refuses, Excused, stopped-IsDocumented, IsDocumented, crashes-IsDocumented,
  if-IsDocumented, print_err-IsDocumented, told-IsDocumented,
}

module _ {W : Type 0} (refused : Type 0) where
  add_to_chain-kept :
      (cert : Option Certificate) (format : Bytes) (e : Option Bytes) (r : Reading W)
      → Excused refused r.session
      → Excused refused (add_to_chain cert format e r).1.session
  add_to_chain-kept cert format (some e) r h = h
  add_to_chain-kept none format none r h = h
  add_to_chain-kept (some cert) format none r h = h

module _ {W : Type 0} (H : Host W) (refused : Type 0) where
  module _ (flags : VerifyFlags) where
    show_text-IsDocumented :
        (result : SimpleVerification) (s : Session W) (o : Outcome Bytes Bytes)
        → IsDocumented H refused true (show_text H (result_code H result) s o)
    show_text-IsDocumented result s (ok text) =
        told-IsDocumented H refused true (not (is_empty result.error)) _
    show_text-IsDocumented result s (err e) = crashes-IsDocumented H refused true s
    show_text-IsDocumented result s panic = crashes-IsDocumented H refused true s

    tell_verify-IsDocumented :
        (o : Outcome Bytes SimpleVerification) (w : W) (s : Session W)
        → IsDocumented H refused true (tell_verify H flags.json (o, w) s)
    unfolding show_verify
    tell_verify-IsDocumented panic w s = crashes-IsDocumented H refused true _
    tell_verify-IsDocumented (err e) w s = crashes-IsDocumented H refused true _
    tell_verify-IsDocumented (ok result) w s =
        if-IsDocumented H refused true flags.json _ _
          (told-IsDocumented H refused true (not (is_empty result.error)) _)
          (show_text-IsDocumented result _ (print_verify_result H.paint result))

    chain_read-IsDocumented :
        (o : Outcome Bytes (Unit {0})) (r : Reading W)
        → Excused refused r.session
        → IsDocumented H refused true (chain_read H flags (o, r))
    unfolding chain_read
    chain_read-IsDocumented panic r x = stopped-IsDocumented H refused true r.session x
    chain_read-IsDocumented (err e) r x =
        print_err-IsDocumented H refused true _ r.session (λ p. cc)
    chain_read-IsDocumented (ok u) r x = tell_verify-IsDocumented _ _ _

    read_chain-Excused :
        (tty : Terminal) (s : Session W)
        → (Refuses tty → refused)
        → Excused refused s
        → (file : Input)
        → Excused refused
            (read_chain H (reading_passwords H tty flags.password) flags.kind file s).1.session
    read_chain-Excused tty s told x file =
        read_as_x509_from_files-kept (λ r. Excused refused r.session) H.verifier.libraries
          (reading_passwords H tty flags.password)
          (λ prompt e h r k. record {
            excuse = λ u. told (default_password flags.password, prompt, e, h);
          })
          _ add_to_chain (record { kept = λ r k. record { excuse = k.excuse } })
          (λ cert found e. record { kept = add_to_chain-kept refused cert found e }) (file ∷ [])
          flags.kind (record { chain = []; session = s }) x

    pub verify-IsDocumented :
        (tty : Terminal) (s : Session W)
        → (Refuses tty → refused)
        → Excused refused s
        → IsDocumented H refused true (verify H tty flags s)
    unfolding verify
    verify-IsDocumented tty s told x = elim (Result-cases (input_file H flags.file)) [
      | inl (e, h) ↦
          rw (h, verify)
            (print_err-IsDocumented H refused true _ s (append-filled e (str "\n") (λ p. cc)))
      | inr (file, h) ↦
          rw (h, verify) (chain_read-IsDocumented _ _ (read_chain-Excused tty s told x file))
    ]
