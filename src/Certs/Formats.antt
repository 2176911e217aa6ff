-- ===== src/Certs/Formats.antt =====
-- lib/certs.go: `formatForFile`. The input is what `Peek(4)` gives of it.
pub mod Magic
use certigo.Base.{
  ℕ, ◌+◌, ◌*◌, ◌/◌, ◌%◌, ◌^◌, List, [], ◌∷◌, ◌++◌, Option, none, some, Bool, true, false, ◌||◌,
  ◌&&◌, Bytes, str, bytes_eq, Result, value, error, ◌==◌, leb, if◌then◌else◌, map,
}
use certigo.Base.Dict.{Dict, lookup}

abbrev pub file_ext_to_format : Dict Bytes
file_ext_to_format =
    (str ".pem", str "PEM")
    ∷ (str ".crt", str "PEM")
    ∷ (str ".p7b", str "PEM")
    ∷ (str ".p7c", str "PEM")
    ∷ (str ".p12", str "PKCS12")
    ∷ (str ".pfx", str "PKCS12")
    ∷ (str ".jceks", str "JCEKS")
    ∷ (str ".jks", str "JCEKS")
    ∷ (str ".der", str "DER")
    ∷ []

-- `filepath.Ext`: from the last dot of the last element of the path.
unfoldable pub ext_from : Bytes → Bytes → Bytes
ext_from found [] = found
ext_from found (c ∷ cs) =
    if c == b'/'
    then ext_from [] cs
    else if c == b'.'
    then ext_from (b'.' ∷ []) cs
    else elim found [ [] ↦ ext_from [] cs | x ∷ xs ↦ ext_from ((x ∷ xs) ++ c ∷ []) cs ]

abbrev pub ext : Bytes → Bytes
ext path = ext_from [] path

-- `strings.ToLower` of the letters of ASCII.
abbrev pub lower : ℕ → ℕ
lower c = if leb b'A' c && leb c b'Z' then c + 32 else c

abbrev pub to_lower : Bytes → Bytes
to_lower = map lower

-- The masks of the code, on a word below 2 ^ 32.
abbrev pub guess_magic : ℕ → Result Bytes Bytes
guess_magic magic =
    if magic == 0xCECECECE || magic == 0xFEEDFEED
    then value (str "JCEKS")
    else if magic == 0x2D2D2D2D || magic == 0x434F4E4E
    then value (str "PEM")
    else if magic / 2 ^ 16 * 2 ^ 16 == 0x30820000
    then if magic / 2 ^ 8 % 2 ^ 8 * 2 ^ 8 == 0x0300 then value (str "DER") else value (str "PKCS12")
    else error (str "unable to guess file format")

-- `Peek(4)` gives the error of the reading, or the end of the input as one, where there are fewer than
-- four bytes.
abbrev pub guess_peeked : Bytes → Option Bytes → Result Bytes Bytes
guess_peeked (a ∷ b ∷ c ∷ d ∷ rest) failure = guess_magic (((a * 256 + b) * 256 + c) * 256 + d)
guess_peeked short none = error (str "unable to read file: EOF\n")
guess_peeked short (some e) = error (str "unable to read file: " ++ (e ++ str "\n"))

unfoldable pub format_for_file : Bytes → Option Bytes → Bytes → Bytes → Result Bytes Bytes
unfolding ext_from
format_for_file input failure filename [] =
    elim (lookup (to_lower (ext filename)) file_ext_to_format) [
      | some guess ↦ value guess
      | none ↦ guess_peeked input failure
    ]
format_for_file input failure filename (c ∷ cs) = value (c ∷ cs)
