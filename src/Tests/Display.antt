-- ===== src/Tests/Display.antt =====
-- Runs of the models of lib/display.go and lib/tls.go.
use certigo.Base.{◌++◌, ◌≡◌, ◌≢◌, ◌↔◌, refl, str}
use certigo.Base.Digits.{hex}
use certigo.Base.Int.{pos, plus_ℕ}
use certigo.Encoder.{lookup_code}
use certigo.Display.{red, green, day, month, start_color, end_color}
use certigo.Display.Dates.{IsBefore, dates_colors}
use certigo.Tls.{cipher_suites, lookup, explain_cipher}
use certigo.Tls.Ciphers.{explain_cipher-unknown}

dates_colors_example :
    ((start_color (pos 100) (pos 50) ≢ red × end_color (pos 100) (pos 150) ≢ red)
      ↔ (IsBefore (pos 50) (pos 100) × IsBefore (pos 100) (pos 150)))
    × ((start_color (pos 100) (pos 50) ≡ green × end_color (pos 100) (pos 150) ≡ green)
        ↔ (IsBefore (plus_ℕ (pos 50) day) (pos 100) × IsBefore (plus_ℕ (pos 100) month) (pos 150)))
dates_colors_example = dates_colors (pos 100) (pos 50) (pos 150)

explain_cipher-unknown_example :
    (explain_cipher (lookup cipher_suites 0x1234)).name
    ≡ str "OWN_" ++ (hex 0x1234 ++ str " cipher")
unfolding lookup_code
explain_cipher-unknown_example = explain_cipher-unknown 0x1234 refl
