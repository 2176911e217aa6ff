-- ===== src/Cli/Dump/Unopened.antt =====
-- cli/cli.go: the command dump, where a file cannot be opened.
use certigo.Base.{
  ℕ, List, [], ◌++◌, ◌≡◌, refl, ap, Bool, true, false, is_empty, Bytes, str, error, ok,
  if◌then◌else◌, Bool-cases, inl, inr,
}
use certigo.Certs.Inputs.{read_as_pem_from_files, read_as_x509_from_files, read_inputs}
use certigo.X509.{Certificate}
use certigo.Certs.{error_from_errors}
use certigo.Terminal.{Terminal}
use certigo.Cli.{
  Host, Session, exits, put, print_line, result_json, print_err, print_warning, input_files,
}
use certigo.Cli.Dump.{DumpFlags, dump_text, finish_dump, show_dump, dump}

module _ {W : Type 0} (H : Host W) where
  -- What is written as an error goes by the error stream alone.
  print_err-errors :
      (text : Bytes) (s t : Session W)
      → s.errors ≡ t.errors
      → (print_err H text s).1.errors ≡ (print_err H text t).1.errors
  unfolding print_err
  print_err-errors text s t h = elim (Bool-cases (H.is_broken text)) [
    | inl hb ↦ rw hb h
    | inr hb ↦ rw hb (ap (λ errors. errors ++ text) h)
  ]

  finish_dump-empty :
      (s t : Session W)
      → t.result.certificates ≡ []
      → t.errors ≡ s.errors
      → let ended = finish_dump H false (ok tt) t in
        (ended.0 ≡ exits 0)
        × (ended.1.errors
            ≡ (print_warning H (str "warning: no certificates found in input\n") s).errors)
  unfolding finish_dump
  finish_dump-empty s t hc h =
      let empty : is_empty t.result.certificates ≡ true = ap is_empty hc in
      rw empty (refl, print_err-errors _ t s h)

  dump_text-empty :
      (width : ℕ) (verbose : Bool) (certs : List Certificate) (formats : List Bytes)
      → certs ≡ []
      → dump_text H width verbose 0 certs formats ≡ ok []
  unfolding dump_text
  dump_text-empty width verbose certs formats hc = rw hc refl

  show_dump-empty :
      (width : ℕ) (verbose json : Bool) (s : Session W)
      → s.result.certificates ≡ []
      → let ended = show_dump H width verbose json (ok tt, s) in
        (ended.0 ≡ exits 0)
        × (ended.1.errors
            ≡ (print_warning H (str "warning: no certificates found in input\n") s).errors)
  unfolding show_dump
  show_dump-empty width verbose true s hc =
      finish_dump-empty s (print_line (result_json H s.result) s) hc refl
  show_dump-empty width verbose false s hc =
      rw (show_dump, dump_text-empty width verbose s.result.certificates s.result.formats hc)
        (finish_dump-empty s (put [] s) hc refl)

  -- Where a file cannot be opened, dump reads none of the others either, says that there are no
  -- certificates in the input, or nothing at all with `--pem`, and ends with the exit code of
  -- success: the error of the opening is not told.
  pub dump_unopened :
      (tty : Terminal) (verbose : Bool) (flags : DumpFlags) (s : Session W) {e : Bytes}
      → input_files H flags.files ≡ error e
      → s.result.certificates ≡ []
      → let ended = dump H tty verbose flags s in
        (ended.0 ≡ exits 0)
        × (ended.1.errors
            ≡ (if flags.pem
                then s
                else print_warning H (str "warning: no certificates found in input\n") s).errors)
  unfolding dump read_as_pem_from_files read_as_x509_from_files read_inputs finish_dump show_dump
      dump_text error_from_errors print_err
  dump_unopened tty verbose flags s h hc = elim (Bool-cases flags.pem) [
    | inl hp ↦
        let empty : is_empty s.result.certificates ≡ true = ap is_empty hc in
        rw (h, dump, hp, empty) (refl, refl)
    | inr hp ↦ rw (h, dump, hp) (show_dump-empty tty.width verbose flags.json s hc)
  ]
