-- ===== src/Starttls/Mysql/Request.antt =====
-- starttls/mysql/driver.go: the packet by which `DumpTLS` asks for TLS.
use certigo.Base.{
  arith, ℕ, ◌+◌, ◌*◌, ◌<◌, ◌/◌, ◌%◌, ◌^◌, [], ◌∷◌, ◌≡◌, refl, ap, ◌∙◌, Bool, true, false, Bytes,
  length, length-drop, ◌==◌, drop,
}
use certigo.Starttls.Mysql.{flag_if, client_flags, packet_length, ssl_request}

-- The flags that a server reads from the packet, in little-endian order.
abbrev pub flags_read : Bytes → ℕ
flags_read (a ∷ b ∷ c ∷ d ∷ rest) = a + 2 ^ 8 * b + 2 ^ 16 * c + 2 ^ 24 * d
flags_read short = 0

-- The value of a word of 32 bits is that of its bytes.
word_bytes :
    (v : ℕ)
    → v < 2 ^ 32
    → v % 2 ^ 8
        + 2 ^ 8 * (v / 2 ^ 8 % 2 ^ 8)
        + 2 ^ 16 * (v / 2 ^ 16 % 2 ^ 8)
        + 2 ^ 24 * (v / 2 ^ 24 % 2 ^ 8)
      ≡ v
word_bytes v h = omega arith

-- The packet's flags, by the three that are not fixed.
total : Bool → Bool → Bool → ℕ
total a b c =
    2 ^ 9
    + 2 ^ 15
    + 2 ^ 0
    + 2 ^ 13
    + 2 ^ 7
    + 2 ^ 19
    + 2 ^ 17
    + 2 ^ 11
    + flag_if a (2 ^ 2)
    + flag_if b (2 ^ 1)
    + flag_if c (2 ^ 16)

total-bits : (a b c : Bool) → (total a b c < 2 ^ 32) × (total a b c / 2 ^ 11 % 2 ≡ 1)
unfolding total
total-bits true true true = (omega arith, refl)
total-bits true true false = (omega arith, refl)
total-bits true false true = (omega arith, refl)
total-bits true false false = (omega arith, refl)
total-bits false true true = (omega arith, refl)
total-bits false true false = (omega arith, refl)
total-bits false false true = (omega arith, refl)
total-bits false false false = (omega arith, refl)

client_flags-bits :
    (found_rows multi_statements : Bool) (flags : ℕ)
    → (client_flags found_rows multi_statements flags < 2 ^ 32)
      × (client_flags found_rows multi_statements flags / 2 ^ 11 % 2 ≡ 1)
unfolding total
client_flags-bits found_rows multi_statements flags =
    total-bits (flags / 2 ^ 2 % 2 == 1) found_rows multi_statements

-- The packet that asks for TLS has 36 bytes with its header; a server reads from it the flags that
-- were meant, that of TLS among them; and its 23 last bytes are those that the buffer held before,
-- where the protocol has zeros.
pub ssl_request-flags :
    (slice : Bytes) (found_rows multi_statements : Bool) (flags charset : ℕ)
    → length slice ≡ packet_length + 4
    → let packet = ssl_request slice (client_flags found_rows multi_statements flags) charset in
      (length packet ≡ packet_length + 4)
      × (flags_read (drop 4 packet) ≡ client_flags found_rows multi_statements flags)
      × (flags_read (drop 4 packet) / 2 ^ 11 % 2 ≡ 1)
      × (drop 13 packet ≡ drop 13 slice)
ssl_request-flags [] f m flags charset h = absurd (omega (arith, h))
ssl_request-flags (a ∷ []) f m flags charset h = absurd (omega (arith, h))
ssl_request-flags (a ∷ b ∷ []) f m flags charset h = absurd (omega (arith, h))
ssl_request-flags (a ∷ b ∷ c ∷ []) f m flags charset h = absurd (omega (arith, h))
ssl_request-flags (a ∷ b ∷ c ∷ d ∷ more) f m flags charset h =
    let (small, asks) = client_flags-bits f m flags in
    let same = word_bytes (client_flags f m flags) small in
    (omega (arith, h, length-drop 9 more), same, ap (λ v. v / 2 ^ 11 % 2) same ∙ asks, refl)
