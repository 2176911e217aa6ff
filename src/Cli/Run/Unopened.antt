-- ===== src/Cli/Run/Unopened.antt =====
-- cli/cli.go: a run of dump where a file that exists cannot be opened.
use certigo.Base.{List, ◌≡◌, refl, Bool, Bytes, str, Result, value, error, if◌then◌else◌, Option}
use certigo.X509.{RequestInfo}
use certigo.Starttls.Connect.{Timers}
use certigo.Terminal.{Terminal}
use certigo.Cli.{Host, exits, print_warning, input_files}
use certigo.Cli.Dump.{DumpFlags}
use certigo.Cli.Dump.Unopened.{dump_unopened}
use certigo.Cli.Run.{Command, dump_command, new_session, run}

module _ {W : Type 0} (H : Host W) (timers : Timers) (captured : Option RequestInfo) where
  -- Where kingpin has taken the arguments for those of dump, its check that the files exist
  -- included, and yet one of the files cannot be opened, for want of a permission say: the run ends
  -- with the exit code of success, and the error of the opening is not told. What it writes on the
  -- error stream is nothing with `--pem`, and else the warning that there are no certificates in the
  -- input.
  pub run_unopened :
      (parse : List Bytes → Result Bytes (Bool × Command)) (args : List Bytes) (tty : Terminal)
      (w : W) {verbose : Bool} {flags : DumpFlags} {e : Bytes}
      → parse args ≡ value (verbose, dump_command flags)
      → input_files H flags.files ≡ error e
      → let ended = run H timers captured parse args tty w in
        (ended.0 ≡ exits 0)
        × (ended.1.errors
            ≡ (if flags.pem
                then new_session w
                else print_warning H
                    (str "warning: no certificates found in input\n")
                    (new_session w)).errors)
  unfolding run
  run_unopened parse args tty w {verbose} {flags} hp hf =
      rw (hp, run) (dump_unopened H tty verbose flags (new_session w) hf refl)
