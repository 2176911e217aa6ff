-- ===== src/Encoder/Hex.antt =====
-- lib/encoder.go: the bytes are read back from what `hexify` shows of them.
use certigo.Base.{
  ℕ, ◌+◌, ◌-◌, ◌*◌, ◌/◌, ◌%◌, ◌<◌, [], ◌∷◌, ◌≡◌, refl, ap, Bytes, All, ltb, if◌then◌else◌, arith,
}
use certigo.Encoder.{hexify}

abbrev digit_value : ℕ → ℕ
digit_value c = if ltb c b'A' then c - b'0' else c - b'A' + 10

-- Two digits, then one byte that is dropped, and so on.
unfoldable pub unhexify : Bytes → Bytes
unhexify [] = []
unhexify (a ∷ []) = []
unhexify (a ∷ b ∷ []) = (digit_value a * 16 + digit_value b) ∷ []
unhexify (a ∷ b ∷ c ∷ text) = (digit_value a * 16 + digit_value b) ∷ unhexify text

hex_byte :
    (b : ℕ)
    → b < 256
    → digit_value (if ltb (b / 16) 10 then b'0' + b / 16 else b'A' + (b / 16 - 10)) * 16
        + digit_value (if ltb (b % 16) 10 then b'0' + b % 16 else b'A' + (b % 16 - 10))
      ≡ b
hex_byte b h = ground arith

-- The bytes of a key identifier are read back from what is shown of them.
pub unhexify-hexify : (bytes : Bytes) → All (λ b. b < 256) bytes → unhexify (hexify bytes) ≡ bytes
unfolding hexify unhexify
unhexify-hexify [] h = refl
unhexify-hexify (b ∷ []) (h, _) = ap (λ x. x ∷ []) (hex_byte b h)
unhexify-hexify (b ∷ c ∷ cs) (h, hs) = rw (hex_byte b h, unhexify-hexify (c ∷ cs) hs)
