-- ===== src/Terminal.antt =====
-- cli/terminal/terminal.go and cli/terminal/testing.go: the password and the width of a terminal.
use certigo.Base.{
  ℕ, [], ◌++◌, Option, none, some, Bool, true, false, is_empty, Bytes, str, Result, value, error,
  ltb, if◌then◌else◌, not,
}
use certigo.Certs.{trim_newline}

abbrev pub min_width : ℕ
min_width = 60

abbrev pub max_width : ℕ
max_width = 80

abbrev pub clamp : ℕ → ℕ
clamp width =
    if ltb max_width width then max_width else if ltb width min_width then min_width else width

-- The width is that of the terminal, where standard output is one and tells it.
unfoldable pub determine_width : Bool → Result Bytes ℕ → ℕ
determine_width false size = clamp min_width
determine_width true (error e) = clamp min_width
determine_width true (value width) = clamp width

-- What a prompt writes in front of the answer.
unfoldable pub prompt_text : Bytes → Bytes
prompt_text prompt =
    str "Enter password"
    ++ ((if not (is_empty prompt) then str " for entry [" ++ (prompt ++ str "]") else [])
        ++ str ": ")

-- `TTY.ReadPassword`: `ask` is the terminal's answer to a text. The error is the text with which the
-- program ends, by the exit code 1.
unfoldable pub read_password :
    (Bytes → Result Bytes Bytes) → Option Bytes → Bytes → Result Bytes Bytes
unfolding prompt_text
read_password ask (some password) prompt = value password
read_password ask none prompt = elim (ask (prompt_text prompt)) [
  | value answer ↦ value (trim_newline answer)
  | error e ↦ error (str "error reading password: " ++ (e ++ str "\n"))
]

-- `Terminal`, as the command line uses it: `password` takes the password of `SetDefaultPassword`,
-- if there is one, and the prompt. Its error is the text with which the program ends.
pub record Terminal : Type 0 where
  pub width : ℕ
  pub password : Option Bytes → Bytes → Result Bytes Bytes

-- `TTY`
abbrev pub tty : (Bytes → Result Bytes Bytes) → Bool → Result Bytes ℕ → Terminal
tty ask is_terminal size = record {
  width = determine_width is_terminal size;
  password = λ default prompt. read_password ask default prompt;
}

-- `TestTerminal`: the default password replaces the one that it was made with.
abbrev pub test_terminal : ℕ → Bytes → Terminal
test_terminal width password = record {
  width = width;
  password = λ default prompt. elim default [ none ↦ value password | some other ↦ value other ];
}
