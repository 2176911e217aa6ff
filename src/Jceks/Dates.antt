-- ===== src/Jceks/Dates.antt =====
-- jceks/jceks.go: the instants of `readDate`.
use certigo.Base.{◌+◌, ◌*◌, ◌≡◌, ◌<◌, arith}
use certigo.Base.Int.{ℤ, pos, negsuc, pos_part, neg_part, quot_ℤ, quot_remainder}
use certigo.Jceks.Types.{Date}
use certigo.Jceks.Reader.{to_date}

-- The nanoseconds of a date are those of the milliseconds `v`, each side of the equation brought to
-- natural numbers by adding the negative parts.
abbrev pub SameInstant : Date → ℤ → Type 0
SameInstant d v =
    pos_part d.sec * 1000000000 + pos_part d.nsec + neg_part v * 1000000
    ≡ neg_part d.sec * 1000000000 + neg_part d.nsec + pos_part v * 1000000

-- The date stands for exactly `v` milliseconds, on both sides of the epoch, and its nanoseconds stay
-- within a second of 0.
pub to_date-SameInstant :
    (v : ℤ)
    → SameInstant (to_date v) v
      × (pos_part (to_date v).nsec < 1000000000)
      × (neg_part (to_date v).nsec < 1000000000)
unfolding to_date quot_ℤ
to_date-SameInstant (pos n) = rw (quot_remainder (pos n)) (ground arith, ground arith, ground arith)
to_date-SameInstant (negsuc n) =
    rw (quot_remainder (negsuc n)) (ground arith, ground arith, ground arith)
