-- ===== src/Base/Text.antt =====
-- Go strings and byte slices are lists of bytes; `str` gives the bytes of an ASCII literal.
use Prim.Native.Nat.{ℕ}
use Prim.Native.Char.{code}
use Prim.Native.String.{String}
use mathlib.Core.Bool.{Bool, true, false, ◌&&◌}
use mathlib.Core.List.{List, [], ◌∷◌}
use mathlib.Core.Logic.{◌↔◌, ◌≢◌}
use mathlib.Core.Path.{◌≡◌, refl}
use native.Mathlib.Omega.{arith}
use certigo.Base.Tests.{◌==◌}

abbrev pub Bytes : Type 0
Bytes = List ℕ

abbrev pub str : String → Bytes
str String.[] = []
str (String.◌∷◌ c s) = code c ∷ str s

unfoldable pub bytes_eq : Bytes → Bytes → Bool
bytes_eq [] [] = true
bytes_eq (x ∷ xs) (y ∷ ys) = x == y && bytes_eq xs ys
bytes_eq _ _ = false

pub bytes_eq_iff : (xs ys : Bytes) → (bytes_eq xs ys ≡ true) ↔ (xs ≡ ys)
unfolding bytes_eq
bytes_eq_iff [] [] = ground arith
bytes_eq_iff [] (y ∷ ys) = ground arith
bytes_eq_iff (x ∷ xs) [] = ground arith
bytes_eq_iff (x ∷ xs) (y ∷ ys) = ground (arith, bytes_eq_iff xs ys)

pub bytes_eq_refl : (xs : Bytes) → bytes_eq xs xs ≡ true
bytes_eq_refl xs = (bytes_eq_iff xs xs).1 refl

pub bytes_eq_ne : (xs ys : Bytes) → xs ≢ ys → bytes_eq xs ys ≡ false
bytes_eq_ne xs ys h = ground (arith, bytes_eq_iff xs ys)
