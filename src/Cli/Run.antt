-- ===== src/Cli/Run.antt =====
-- cli/cli.go and main.go: `Run`. kingpin's parsing of the arguments is a parameter.
pub mod Codes
pub mod Unopened
use certigo.Base.{ℕ, List, [], ◌∷◌, ◌++◌, Option, Bool, false, Bytes, str, Result, value, error}
use certigo.X509.{RequestInfo}
use certigo.Starttls.Connect.{Timers}
use certigo.Terminal.{Terminal, tty}
use certigo.Verify.Json.{no_result}
use certigo.Cli.{Host, Session, Exit, exits, crashes, print_err}
use certigo.Cli.Dump.{DumpFlags, dump}
use certigo.Cli.Connect.{ConnectFlags, connect}
use certigo.Cli.Verify.{VerifyFlags, verify}

-- What kingpin makes of the arguments: the command, with the flags that it reads.
pub data Command : Type 0 where
  dump_command : DumpFlags → Command
  connect_command : ConnectFlags → Command
  verify_command : VerifyFlags → Command
  other_command : Command

abbrev pub new_session : {W : Type 0} → W → Session W
new_session w = record {
  output = [];
  errors = [];
  stdout = [];
  result = no_result;
  world = w;
  gave_up = false;
}

module _ {W : Type 0} (H : Host W) (timers : Timers) (captured : Option RequestInfo) where
  abbrev pub run_command : Terminal → Bool → Command → Session W → Exit × Session W
  run_command tty verbose (dump_command flags) s = dump H tty verbose flags s
  run_command tty verbose (connect_command flags) s = connect H timers captured tty verbose flags s
  run_command tty verbose (verify_command flags) s = verify H tty flags s
  run_command tty verbose other_command s = (exits 0, s)

  abbrev pub parsed : Terminal → Result Bytes (Bool × Command) → Session W → Exit × Session W
  parsed tty (error e) s = print_err H (e ++ str ", try --help\n") s
  parsed tty (value (verbose, command)) s = run_command tty verbose command s

  unfoldable pub run :
      (List Bytes → Result Bytes (Bool × Command)) → List Bytes → Terminal → W → Exit × Session W
  unfolding print_err dump connect verify
  run parse args tty w = parsed tty (parse args) (new_session w)

  -- `main`: the terminal answers prompts and tells its width; the first argument is the program's
  -- name, and out of range where there is none.
  unfoldable pub main :
      (List Bytes → Result Bytes (Bool × Command))
      → (Bytes → Result Bytes Bytes)
      → Bool
      → Result Bytes ℕ
      → List Bytes
      → W
      → Exit × Session W
  unfolding run
  main parse ask is_terminal size [] w = (crashes, new_session w)
  main parse ask is_terminal size (name ∷ args) w = run parse args (tty ask is_terminal size) w
