-- ===== src/Certs.antt =====
-- lib/certs.go: the conversion of all inputs to PEM blocks and certificates. A library's error is its
-- text; the callback is an action on a state of the caller's.
pub mod Formats
pub mod Texts
pub mod Stream
pub mod Inputs
pub mod Headers
use certigo.Base.{
  ℕ, List, [], ◌∷◌, ◌++◌, Option, none, some, Bool, true, false, Bytes, str, bytes_eq, Result,
  value, error, Outcome, ok, err, panic, M, pure, fail, ◌>>=◌, ◌>>◌, map, if◌then◌else◌, not, ◌||◌,
  ◌&&◌, ◌==◌, leb,
}
use certigo.Base.Dict.{Dict, insert}
use certigo.Pkcs7.{SignedDataEnvelope, Parsed}

pub record Block : Type 0 where
  pub kind : Bytes
  pub headers : Dict Bytes
  pub bytes : Bytes

abbrev pub name_header : Bytes
name_header = str "friendlyName"

abbrev pub file_header : Bytes
file_header = str "originFile"

-- `strings.TrimSuffix(text, "\n")`
unfoldable pub trim_newline : Bytes → Bytes
trim_newline [] = []
trim_newline (c ∷ []) = if bytes_eq (c ∷ []) (str "\n") then [] else c ∷ []
trim_newline (c ∷ d ∷ cs) = c ∷ trim_newline (d ∷ cs)

unfoldable pub list_errors : List Bytes → Bytes
list_errors [] = []
list_errors (e ∷ errs) = str "* " ++ (trim_newline e ++ (str "\n" ++ list_errors errs))

-- No error where there are none.
unfoldable pub error_from_errors : List Bytes → Option Bytes
unfolding list_errors trim_newline
error_from_errors [] = none
error_from_errors (e ∷ []) = some e
error_from_errors (e ∷ f ∷ errs) =
    some (str "encountered multiple errors:\n" ++ list_errors (e ∷ f ∷ errs))

-- `strings.TrimSpace`, for the spaces of ASCII.
abbrev is_space : ℕ → Bool
is_space c = c == b' ' || leb 9 c && leb c 13

unfoldable pub trim_left : Bytes → Bytes
trim_left [] = []
trim_left (c ∷ cs) = let rest = trim_left cs in if is_space c then rest else c ∷ cs

unfoldable pub trim_right : Bytes → Bytes
trim_right [] = []
trim_right (c ∷ cs) = elim (trim_right cs) [
  | [] ↦ if is_space c then [] else c ∷ []
  | d ∷ ds ↦ c ∷ d ∷ ds
]

unfoldable pub trim_space : Bytes → Bytes
unfolding trim_left trim_right
trim_space text = trim_right (trim_left text)

-- The entries of the second map replace those of the first.
unfoldable pub merge_headers : Dict Bytes → Dict Bytes → Dict Bytes
merge_headers base [] = base
merge_headers base ((k, v) ∷ extra) = merge_headers (insert k v base) extra

unfoldable pub pkcs7_to_pem : SignedDataEnvelope → Dict Bytes → Block
pkcs7_to_pem block headers = record { kind = str "PKCS7"; bytes = block.raw; headers = headers }

unfoldable pub merged : Block → Dict Bytes → Block
merged block headers = record block { headers = merge_headers block.headers headers }

module _ {S A : Type 0} where
  -- A loop over items that stops at the first error.
  unfoldable pub for_each : (A → M S Bytes (Unit {0})) → List A → M S Bytes (Unit {0})
  for_each f [] = pure tt
  for_each f (a ∷ rest) = f a >> for_each f rest
