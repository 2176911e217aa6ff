-- ===== src/Base/Digits.antt =====
-- Numbers as text, for `strconv.Itoa` and the verbs `%d`, `%x` and `%08x`.
use certigo.Base.{
  ℕ, zero, suc, ◌+◌, ◌-◌, ◌*◌, ◌/◌, ◌%◌, ◌<◌, ◌≤◌, [], ◌∷◌, ◌++◌, ◌≡◌, refl, Bytes, ltb,
  if◌then◌else◌, arith, Bool-cases, inl, inr,
}

-- The digit of a value below 16.
abbrev pub digit : ℕ → ℕ
digit v = if ltb v 10 then b'0' + v else b'a' + (v - 10)

-- Most significant digit first; `fuel` is above the value.
unfoldable pub digits_fuel : ℕ → ℕ → ℕ → Bytes
digits_fuel zero base v = []
digits_fuel (suc fuel) base v =
    let front = digits_fuel fuel base (v / base) in
    if ltb v base then digit v ∷ [] else front ++ digit (v % base) ∷ []

unfoldable pub decimal : ℕ → Bytes
unfolding digits_fuel
decimal v = digits_fuel (suc v) 10 v

unfoldable pub hex : ℕ → Bytes
unfolding digits_fuel
hex v = digits_fuel (suc v) 16 v

-- The value of a text of decimal digits.
unfoldable pub decimal_value : ℕ → Bytes → ℕ
decimal_value acc [] = acc
decimal_value acc (c ∷ cs) = decimal_value (acc * 10 + (c - b'0')) cs

decimal_value-concat :
    (acc c : ℕ) (cs : Bytes)
    → decimal_value acc (cs ++ c ∷ []) ≡ decimal_value acc cs * 10 + (c - b'0')
unfolding decimal_value
decimal_value-concat acc c [] = refl
decimal_value-concat acc c (b ∷ cs) = decimal_value-concat (acc * 10 + (b - b'0')) c cs

digits_value : (fuel v : ℕ) → v < fuel → decimal_value 0 (digits_fuel fuel 10 v) ≡ v
unfolding digits_fuel decimal_value
digits_value zero v h = absurd (omega arith)
digits_value (suc fuel) v h = elim (Bool-cases (ltb v 10)) [
  | inl small ↦ rw small (ground arith)
  | inr large ↦ rw large (
      ground (
        arith,
        decimal_value-concat 0 (digit (v % 10)) (digits_fuel fuel 10 (v / 10)),
        digits_value fuel (v / 10) (ground arith),
      ))
]

-- Different numbers have different texts: the number is read back.
pub decimal_value-decimal : (v : ℕ) → decimal_value 0 (decimal v) ≡ v
unfolding decimal
decimal_value-decimal v = digits_value (suc v) v (omega arith)

abbrev IsDecimal : ℕ → Type 0
IsDecimal c = (b'0' ≤ c) × (c ≤ b'9')

-- A text that ends in a decimal digit.
abbrev pub EndsInDigit : Bytes → Type 0
EndsInDigit text = (front : Bytes) × (c : ℕ) × (text ≡ front ++ c ∷ []) × (c < 58)

digits_last : (fuel v : ℕ) → v < fuel → EndsInDigit (digits_fuel fuel 10 v)
unfolding digits_fuel
digits_last zero v h = absurd (omega arith)
digits_last (suc fuel) v h = elim (Bool-cases (ltb v 10)) [
  | inl small ↦ ([], b'0' + v, rw small (ground arith), ground arith)
  | inr large ↦ (digits_fuel fuel 10 (v / 10), b'0' + v % 10, rw large (ground arith), omega arith)
]

pub decimal_last : (v : ℕ) → EndsInDigit (decimal v)
unfolding decimal
decimal_last v = digits_last (suc v) v (omega arith)
