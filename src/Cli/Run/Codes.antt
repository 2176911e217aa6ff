-- ===== src/Cli/Run/Codes.antt =====
-- cli/cli.go: the exit codes.
use certigo.Base.{
  ℕ, [], ◌∷◌, ◌≡◌, none, some, Result-cases, inl, inr, List, Option, Bool, true, false, Bytes, str,
  Result, value, error,
}
use certigo.X509.{RequestInfo}
use certigo.Starttls.Connect.{Timers}
use certigo.Terminal.{Terminal, tty, prompt_text, read_password}
use certigo.Cli.{Host, Session}
use certigo.Cli.Codes.{
  append-filled, Refuses, Excused, IsDocumented, crashes-IsDocumented, print_err-IsDocumented,
}
use certigo.Cli.Run.{
  Command, dump_command, connect_command, verify_command, other_command, new_session, parsed, run,
  main,
}
use certigo.Cli.Dump.Codes.{dump-IsDocumented}
use certigo.Cli.Connect.Codes.{connect-IsDocumented}
use certigo.Cli.Verify.Codes.{verify-IsDocumented}

-- Which commands ask for the result of the verification.
abbrev pub asks : Result Bytes (Bool × Command) → Bool
asks (error e) = false
asks (value (verbose, dump_command flags)) = false
asks (value (verbose, connect_command flags)) = flags.verify
asks (value (verbose, verify_command flags)) = true
asks (value (verbose, other_command)) = false

-- The arguments behind the program's name.
abbrev pub behind : List Bytes → List Bytes
behind [] = []
behind (name ∷ args) = args

abbrev pub FailsToAnswer : (Bytes → Result Bytes Bytes) → Type 0
FailsToAnswer ask = (text : Bytes) × (e : Bytes) × (ask text ≡ error e)

read_password-FailsToAnswer :
    (ask : Bytes → Result Bytes Bytes) (default : Option Bytes) (prompt e : Bytes)
    → read_password ask default prompt ≡ error e
    → FailsToAnswer ask
unfolding read_password
read_password-FailsToAnswer ask (some password) prompt e h = absurd (cc)
read_password-FailsToAnswer ask none prompt e h = elim (Result-cases (ask (prompt_text prompt))) [
  | inl (f, hf) ↦ (prompt_text prompt, f, hf)
  | inr (answer, hf) ↦ absurd (cc)
]

module _ {W : Type 0} (H : Host W) where
  module _ (timers : Timers) (captured : Option RequestInfo) where
    parsed-IsDocumented :
        (refused : Type 0) (tty : Terminal) (arguments : Result Bytes (Bool × Command))
        (s : Session W)
        → (Refuses tty → refused)
        → Excused refused s
        → IsDocumented H refused (asks arguments) (parsed H timers captured tty arguments s)
    parsed-IsDocumented refused tty (error e) s told x =
        print_err-IsDocumented H refused false _ s
          (append-filled e (str ", try --help\n") (λ p. cc))
    parsed-IsDocumented refused tty (value (verbose, dump_command flags)) s told x =
        dump-IsDocumented H refused false tty verbose flags s told x
    parsed-IsDocumented refused tty (value (verbose, connect_command flags)) s told x =
        connect-IsDocumented H refused flags timers captured tty verbose s
    parsed-IsDocumented refused tty (value (verbose, verify_command flags)) s told x =
        verify-IsDocumented H refused flags tty s told x
    parsed-IsDocumented refused tty (value (verbose, other_command)) s told x = record { says = tt }

    run-IsDocumented :
        (refused : Type 0) (parse : List Bytes → Result Bytes (Bool × Command)) (args : List Bytes)
        (tty : Terminal) (w : W)
        → (Refuses tty → refused)
        → IsDocumented H refused (asks (parse args)) (run H timers captured parse args tty w)
    unfolding run
    run-IsDocumented refused parse args tty w told =
        parsed-IsDocumented refused tty (parse args) (new_session w) told
          (record { excuse = λ h. absurd (cc) })

    -- Whatever the arguments, the network, the files and the terminal: the exit code is at most 3; it
    -- is 1 only for verify, for connect with `--verify` and where the terminal fails to answer a
    -- prompt, 2 only where a text stands on the error stream, and 3 only where a text cannot be
    -- written there.
    pub main-IsDocumented :
        (parse : List Bytes → Result Bytes (Bool × Command)) (ask : Bytes → Result Bytes Bytes)
        (is_terminal : Bool) (size : Result Bytes ℕ) (args : List Bytes) (w : W)
        → IsDocumented H
            (FailsToAnswer ask)
            (asks (parse (behind args)))
            (main H timers captured parse ask is_terminal size args w)
    unfolding main
    main-IsDocumented parse ask is_terminal size [] w = crashes-IsDocumented H _ _ _
    main-IsDocumented parse ask is_terminal size (name ∷ args) w =
        run-IsDocumented (FailsToAnswer ask) parse args (tty ask is_terminal size) w
          (λ (default, prompt, e, h). read_password-FailsToAnswer ask default prompt e h)
