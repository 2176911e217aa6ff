-- ===== src/Base/Int.antt =====
-- Signed integers over the native numbers, and the reading of a word as two's complement.
use certigo.Base.{ℕ, suc, ◌+◌, ◌-◌, ◌*◌, ◌/◌, ◌%◌, ◌≤◌, ◌≡◌, arith, ltb, leb, if◌then◌else◌, Bool}

-- `negsuc n` is -(n + 1).
pub data ℤ : Type 0 where
  pos : ℕ → ℤ
  negsuc : ℕ → ℤ

abbrev pub pos_part : ℤ → ℕ
pos_part (pos n) = n
pos_part (negsuc n) = 0

abbrev pub neg_part : ℤ → ℕ
neg_part (pos n) = 0
neg_part (negsuc n) = suc n

-- a - b, as an integer.
abbrev pub sub_ℕ : ℕ → ℕ → ℤ
sub_ℕ a b = if leb b a then pos (a - b) else negsuc (b - a - 1)

infixl 65 ◌-ℤ◌
infixl 70 ◌*ℤ◌
unfoldable pub ◌-ℤ◌ : ℤ → ℤ → ℤ
a -ℤ b = sub_ℕ (pos_part a + neg_part b) (neg_part a + pos_part b)

unfoldable pub ◌*ℤ◌ : ℤ → ℤ → ℤ
a *ℤ b =
    sub_ℕ (pos_part a * pos_part b + neg_part a * neg_part b)
      (pos_part a * neg_part b + neg_part a * pos_part b)

-- a + n
abbrev pub plus_ℕ : ℤ → ℕ → ℤ
plus_ℕ a n = sub_ℕ (pos_part a + n) (neg_part a)

abbrev pub lt_ℤ : ℤ → ℤ → Bool
lt_ℤ a b = ltb (pos_part a + neg_part b) (pos_part b + neg_part a)

-- Go's `/` on signed integers by a positive number: it truncates towards zero.
unfoldable pub quot_ℤ : ℤ → ℕ → ℤ
quot_ℤ a d = sub_ℕ (pos_part a / d) (neg_part a / d)

-- The integer that a word stands for whose sign bit weighs `half`.
abbrev pub signed : ℕ → ℕ → ℤ
signed half v = if ltb v half then pos v else negsuc (2 * half - v - 1)

pub signed-pos : (half v : ℕ) → suc v ≤ half → signed half v ≡ pos v
signed-pos half v h = ground arith

-- What a truncated division leaves, scaled, has the parts of a remainder on each side.
pub quot_remainder :
    (a : ℤ)
    → (a -ℤ quot_ℤ a 1000 *ℤ pos 1000) *ℤ pos 1000 *ℤ pos 1000
      ≡ sub_ℕ (pos_part a % 1000 * 1000000) (neg_part a % 1000 * 1000000)
unfolding ◌-ℤ◌ ◌*ℤ◌ quot_ℤ
quot_remainder (pos n) = ground arith
quot_remainder (negsuc n) = ground arith
