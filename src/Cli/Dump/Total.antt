-- ===== src/Cli/Dump/Total.antt =====
-- cli/cli.go: the command dump shows whatever it has read.
use certigo.Base.{
  arith, ℕ, suc, List, [], ◌∷◌, ◌≡◌, ◌≢◌, ◌↔◌, refl, length, length-append, Option, none, some,
  Bool, true, false, is_empty, Bytes, Outcome, ok, err, panic, if◌then◌else◌, not, ◌&&◌, Bool-cases,
  inl, inr,
}
use certigo.X509.{Certificate}
use certigo.Certs.Inputs.{read_as_pem_from_files, read_as_x509_from_files}
use certigo.Certs.Inputs.Keeps.{read_as_x509_from_files-kept}
use certigo.Terminal.{Terminal}
use certigo.Cli.{
  Host, Session, crashes, stopped, quit, passwords, warn_request, print_err, input_files,
}
use certigo.Cli.Dump.{
  DumpFlags, files_read, collect, print_block, dump_text, finish_dump, show_dump, dump,
}

-- Each certificate of the session has a format.
abbrev pub PairsUp : {W : Type 0} → Session W → Type 0
PairsUp s = length s.result.certificates ≡ length s.result.formats

abbrev IsText : Outcome Bytes Bytes → Type 0
IsText o = (text : Bytes) × (o ≡ ok text)

module _ {W : Type 0} where
  collect-kept :
      (cert : Option Certificate) (format : Bytes) (e : Option Bytes) (s : Session W)
      → PairsUp s
      → PairsUp (collect cert format e s).1
  collect-kept cert format (some e) s h = h
  collect-kept none format none s h = h
  collect-kept (some cert) format none s h = omega (
    arith,
    length-append s.result.certificates (cert ∷ []),
    length-append s.result.formats (format ∷ []),
    h,
  )

  module _ (H : Host W) where
    dump_text-IsText :
        (width : ℕ) (verbose : Bool) (i : ℕ) (certs : List Certificate) (formats : List Bytes)
        → length certs ≡ length formats
        → IsText (dump_text H width verbose i certs formats)
    unfolding dump_text
    dump_text-IsText width verbose i [] formats h = ([], refl)
    dump_text-IsText width verbose i (cert ∷ certs) [] h = absurd (omega (arith, h))
    dump_text-IsText width verbose i (cert ∷ certs) (format ∷ formats) h =
        let (text, e) = dump_text-IsText width verbose (suc i) certs formats (omega (arith, h)) in
        rw (e, dump_text) (_, refl)

    print_err-crashes : (text : Bytes) (s : Session W) → (print_err H text s).0 ≢ crashes
    unfolding print_err
    print_err-crashes text s = elim (Bool-cases (H.is_broken text)) [
      | inl h ↦ rw h (λ p. cc)
      | inr h ↦ rw h (λ p. cc)
    ]

    print_err-kept : (text : Bytes) (s : Session W) → PairsUp s → PairsUp (print_err H text s).1
    unfolding print_err
    print_err-kept text s h = elim (Bool-cases (H.is_broken text)) [
      | inl hb ↦ rw (hb, print_err) h
      | inr hb ↦ rw (hb, print_err) h
    ]

    quit-kept : (text : Bytes) (s : Session W) → PairsUp s → PairsUp (quit H text s)
    unfolding quit print_err
    quit-kept text s h = print_err-kept text s h

    stopped-crashes :
        (s : Session W)
        → ((stopped s).0 ≡ crashes)
          ↔ ((◌≡◌ {A = Outcome Bytes (Unit {0})} panic panic) × (s.gave_up ≡ false))
    stopped-crashes s = elim (Bool-cases s.gave_up) [
      | inl h ↦ rw h (λ e. absurd (cc), λ (_, e). absurd (cc))
      | inr h ↦ rw h (λ e. (refl, refl), λ e. refl)
    ]

    finish_dump-crashes :
        (pem : Bool) (o : Outcome Bytes (Unit {0})) (s : Session W)
        → ((finish_dump H pem o s).0 ≡ crashes) ↔ ((o ≡ panic) × (s.gave_up ≡ false))
    unfolding finish_dump
    finish_dump-crashes pem panic s = stopped-crashes s
    finish_dump-crashes pem (err e) s =
        (λ h. absurd (print_err-crashes _ s h), λ (h, _). absurd (cc))
    finish_dump-crashes pem (ok u) s =
        elim (Bool-cases (is_empty s.result.certificates && not pem)) [
          | inl h ↦ rw h (λ e. absurd (cc), λ (e, _). absurd (cc))
          | inr h ↦ rw h (λ e. absurd (cc), λ (e, _). absurd (cc))
        ]

    show_dump-crashes :
        (width : ℕ) (verbose json : Bool) (o : Outcome Bytes (Unit {0})) (s : Session W)
        → PairsUp s
        → ((show_dump H width verbose json (o, s)).0 ≡ crashes)
          ↔ ((o ≡ panic) × (s.gave_up ≡ false))
    unfolding show_dump
    show_dump-crashes width verbose json panic s h = stopped-crashes s
    show_dump-crashes width verbose true (ok u) s h = finish_dump-crashes false (ok u) _
    show_dump-crashes width verbose true (err e) s h = finish_dump-crashes false (err e) _
    show_dump-crashes width verbose false (ok u) s h =
        let (text, e) = dump_text-IsText width verbose 0 _ _ h in
        rw (show_dump, e) (finish_dump-crashes false (ok u) _)
    show_dump-crashes width verbose false (err f) s h =
        let (text, e) = dump_text-IsText width verbose 0 _ _ h in
        rw (show_dump, e) (finish_dump-crashes false (err f) _)

    -- What the reading of the inputs comes to.
    abbrev pub reading : Terminal → DumpFlags → Session W → Outcome Bytes (Unit {0}) × Session W
    reading tty flags s =
        let files = files_read (input_files H flags.files) in
        let password = passwords H tty flags.password in
        if flags.pem
        then read_as_pem_from_files H.verifier.libraries password files flags.kind (print_block H) s
        else read_as_x509_from_files H.verifier.libraries password
            (λ t. (ok tt, warn_request H.paint t)) files flags.kind collect s

    -- Whatever the inputs and the flags, dump panics exactly where the reading of the inputs does, not
    -- counting the end where a password cannot be read: each certificate that it shows has its
    -- format.
    pub dump-crashes :
        (tty : Terminal) (verbose : Bool) (flags : DumpFlags) (s : Session W)
        → PairsUp s
        → ((dump H tty verbose flags s).0 ≡ crashes)
          ↔ (let (read, t) = reading tty flags s in (read ≡ panic) × (t.gave_up ≡ false))
    unfolding dump
    dump-crashes tty verbose flags s h =
        let files = files_read (input_files H flags.files) in
        let password = passwords H tty flags.password in
        elim (Bool-cases flags.pem) [
          | inl hp ↦ rw (hp, dump) (finish_dump-crashes true _ _)
          | inr hp ↦
              rw (hp, dump)
                (show_dump-crashes tty.width verbose flags.json _ _ (
                  read_as_x509_from_files-kept PairsUp H.verifier.libraries password
                    (λ prompt e hp. quit-kept e) _ collect (record { kept = λ t k. k })
                    (λ cert found e. record { kept = collect-kept cert found e }) files flags.kind s
                    h))
        ]
