-- ===== src/Cli/Dump/Codes.antt =====
-- cli/cli.go: the exit codes of dump.
use certigo.Base.{
  ◌≡◌, error, Option, some, none, [], Result-cases, ℕ, List, Bool, true, false, is_empty, Bytes,
  Outcome, Outcome-cases, ok, err, panic, not, ◌&&◌, inl, inr,
}
use certigo.X509.{Certificate}
use certigo.Certs.{Block}
use certigo.Certs.Stream.{Input, Passwords}
use certigo.Certs.Inputs.Keeps.{read_as_pem_from_files-kept, read_as_x509_from_files-kept}
use certigo.Terminal.{Terminal}
use certigo.Cli.{Host, Session, default_password, passwords}
use certigo.Cli.Dump.{
  DumpFlags, collect, print_block, dump_text, finish_dump, show_dump, dump_pem, dump_x509, dump,
}
use certigo.Cli.Codes.{
  Refuses, Excused, stopped-IsDocumented, IsDocumented, crashes-IsDocumented, if-IsDocumented,
  print_err-IsDocumented,
}

module _ {W : Type 0} (refused : Type 0) where
  collect-kept :
      (cert : Option Certificate) (format : Bytes) (e : Option Bytes) (s : Session W)
      → Excused refused s
      → Excused refused (collect cert format e s).1
  collect-kept cert format (some e) s h = h
  collect-kept none format none s h = h
  collect-kept (some cert) format none s h = record { excuse = h.excuse }

  module _ (H : Host W) where
    print_block-kept :
        (block : Block) (format : Bytes) (s : Session W)
        → Excused refused s
        → Excused refused (print_block H block format s).1
    print_block-kept block format s h =
        elim (Result-cases (H.pem_encode (record block { headers = [] }))) [
          | inl (e, hp) ↦ rw (hp, print_block) h
          | inr (text, hp) ↦ rw (hp, print_block) (record { excuse = h.excuse })
        ]

module _ {W : Type 0} (H : Host W) (refused : Type 0) where
  module _ (asked : Bool) where
    finish_dump-IsDocumented :
        (pem : Bool) (o : Outcome Bytes (Unit {0})) (s : Session W)
        → Excused refused s
        → IsDocumented H refused asked (finish_dump H pem o s)
    unfolding finish_dump
    finish_dump-IsDocumented pem panic s h = stopped-IsDocumented H refused asked s h
    finish_dump-IsDocumented pem (err e) s h = print_err-IsDocumented H refused asked _ s (λ p. cc)
    finish_dump-IsDocumented pem (ok u) s h =
        if-IsDocumented H refused asked (is_empty s.result.certificates && not pem) _ _
          (record { says = tt }) (record { says = tt })

    show_dump-IsDocumented :
        (width : ℕ) (verbose json : Bool) (o : Outcome Bytes (Unit {0})) (s : Session W)
        → Excused refused s
        → IsDocumented H refused asked (show_dump H width verbose json (o, s))
    unfolding show_dump
    show_dump-IsDocumented width verbose json panic s x = stopped-IsDocumented H refused asked s x
    show_dump-IsDocumented width verbose true (ok u) s x =
        finish_dump-IsDocumented false (ok u) _ (record { excuse = x.excuse })
    show_dump-IsDocumented width verbose true (err e) s x =
        finish_dump-IsDocumented false (err e) _ (record { excuse = x.excuse })
    show_dump-IsDocumented width verbose false (ok u) s x =
        elim (Outcome-cases (dump_text H width verbose 0 s.result.certificates s.result.formats)) [
          | inl h ↦ rw (h, show_dump) (crashes-IsDocumented H refused asked s)
          | inr (inl (e, h)) ↦ rw (h, show_dump) (crashes-IsDocumented H refused asked s)
          | inr (inr (text, h)) ↦
              rw (h, show_dump)
                (finish_dump-IsDocumented false (ok u) _ (record { excuse = x.excuse }))
        ]
    show_dump-IsDocumented width verbose false (err f) s x =
        elim (Outcome-cases (dump_text H width verbose 0 s.result.certificates s.result.formats)) [
          | inl h ↦ rw (h, show_dump) (crashes-IsDocumented H refused asked s)
          | inr (inl (e, h)) ↦ rw (h, show_dump) (crashes-IsDocumented H refused asked s)
          | inr (inr (text, h)) ↦
              rw (h, show_dump)
                (finish_dump-IsDocumented false (err f) _ (record { excuse = x.excuse }))
        ]

    module _ (password : Passwords (Session W))
        (gives_up : (prompt e : Bytes)
          → password.read prompt ≡ error e
          → (s : Session W) → Excused refused s
          → Excused refused (password.give_up e s)) where
      dump_pem-IsDocumented :
          (files : List Input) (kind : Bytes) (s : Session W)
          → Excused refused s
          → IsDocumented H refused asked (dump_pem H password files kind s)
      dump_pem-IsDocumented files kind s x = finish_dump-IsDocumented true _ _ (
          read_as_pem_from_files-kept (Excused refused) H.verifier.libraries password gives_up
            (print_block H)
            (λ block found. record { kept = print_block-kept refused H block found }) files kind s
            x)

      dump_x509-IsDocumented :
          (width : ℕ) (verbose json : Bool) (files : List Input) (kind : Bytes) (s : Session W)
          → Excused refused s
          → IsDocumented H refused asked (dump_x509 H width verbose json password files kind s)
      dump_x509-IsDocumented width verbose json files kind s x =
          show_dump-IsDocumented width verbose json _ _ (
            read_as_x509_from_files-kept (Excused refused) H.verifier.libraries password gives_up _
              collect (record { kept = λ t k. record { excuse = k.excuse } })
              (λ cert found e. record { kept = collect-kept refused cert found e }) files kind s x)

    pub dump-IsDocumented :
        (tty : Terminal) (verbose : Bool) (flags : DumpFlags) (s : Session W)
        → (Refuses tty → refused)
        → Excused refused s
        → IsDocumented H refused asked (dump H tty verbose flags s)
    unfolding dump
    dump-IsDocumented tty verbose flags s told x =
        let password = passwords H tty flags.password in
        let gives_up : (prompt e : Bytes)
            → password.read prompt ≡ error e
            → (t : Session W) → Excused refused t
            → Excused refused (password.give_up e t) =
          λ prompt e h t k. record {
            excuse = λ u. told (default_password flags.password, prompt, e, h);
          } in
        if-IsDocumented H refused asked flags.pem _ _
          (dump_pem-IsDocumented password gives_up _ flags.kind s x)
          (dump_x509-IsDocumented password gives_up tty.width verbose flags.json _ flags.kind s x)
