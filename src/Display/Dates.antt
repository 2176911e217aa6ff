-- ===== src/Display/Dates.antt =====
-- lib/display.go: what the colours of the dates say.
use certigo.Base.{ℕ, ◌+◌, ◌<◌, ◌≡◌, ◌≢◌, ◌↔◌, refl, Bool, true, false, arith, ltb→lt, lt→ltb}
use certigo.Base.Int.{ℤ, pos, negsuc, pos_part, neg_part, plus_ℕ, lt_ℤ}
use certigo.Display.{Color, green, yellow, red, day, month, start_color, end_color}

-- The first instant is before the second.
abbrev pub IsBefore : ℤ → ℤ → Type 0
IsBefore a b = pos_part a + neg_part b < pos_part b + neg_part a

-- A sum goes by the parts of its first summand.
plus_ℕ-parts :
    (a : ℤ) (n : ℕ) → pos_part (plus_ℕ a n) + neg_part a ≡ pos_part a + n + neg_part (plus_ℕ a n)
plus_ℕ-parts (pos m) n = ground arith
plus_ℕ-parts (negsuc m) n = ground arith

color_of : Bool → Bool → Color
color_of true b = green
color_of false true = yellow
color_of false false = red

color_red : (a b : Bool) → (a ≡ true → b ≡ true) → (color_of a b ≢ red) ↔ (b ≡ true)
unfolding color_of
color_red true b h = (λ _. h refl, λ _ e. cc)
color_red false true h = (λ _. refl, λ _ e. cc)
color_red false false h = (λ k. absurd (k refl), λ e. cc)

color_green : (a b : Bool) → (color_of a b ≡ green) ↔ (a ≡ true)
unfolding color_of
color_green true b = (λ _. refl, λ _. refl)
color_green false true = (λ e. cc, λ e. cc)
color_green false false = (λ e. cc, λ e. cc)

lt_ℤ-IsBefore : (a b : ℤ) → (lt_ℤ a b ≡ true) ↔ IsBefore a b
lt_ℤ-IsBefore a b = (ltb→lt _ _, lt→ltb _ _)

-- An instant in front of another is in front of it by any less.
IsBefore-plus : (a b : ℤ) (n : ℕ) → IsBefore (plus_ℕ a n) b → IsBefore a b
IsBefore-plus a b n h = omega (arith, plus_ℕ-parts a n)

start_color-color_of :
    (now start : ℤ)
    → start_color now start ≡ color_of (lt_ℤ (plus_ℕ start day) now) (lt_ℤ start now)
unfolding color_of
start_color-color_of now start = ground arith

end_color-color_of :
    (now end : ℤ) → end_color now end ≡ color_of (lt_ℤ (plus_ℕ now month) end) (lt_ℤ now end)
unfolding color_of
end_color-color_of now end = ground arith

via : {A B C : Type 0} → A ↔ B → B ↔ C → A ↔ C
via (f, g) (h, k) = (λ a. h (f a), λ c. g (k c))

pair : {A B C D : Type 0} → A ↔ B → C ↔ D → (A × C) ↔ (B × D)
pair (f, g) (h, k) = (λ (a, c). (f a, h c), λ (b, d). (g b, k d))

module _ (a b : ℤ) (n : ℕ) where
  weaker : lt_ℤ (plus_ℕ a n) b ≡ true → lt_ℤ a b ≡ true
  weaker h = (lt_ℤ-IsBefore a b).1 (IsBefore-plus a b n ((lt_ℤ-IsBefore (plus_ℕ a n) b).0 h))

start_color-red : (now start : ℤ) → (start_color now start ≢ red) ↔ IsBefore start now
start_color-red now start =
    rw (start_color-color_of now start)
      (via (color_red _ _ (weaker start now day)) (lt_ℤ-IsBefore start now))

start_color-green :
    (now start : ℤ) → (start_color now start ≡ green) ↔ IsBefore (plus_ℕ start day) now
start_color-green now start =
    rw (start_color-color_of now start)
      (via (color_green _ (lt_ℤ start now)) (lt_ℤ-IsBefore (plus_ℕ start day) now))

end_color-red : (now end : ℤ) → (end_color now end ≢ red) ↔ IsBefore now end
end_color-red now end =
    rw (end_color-color_of now end)
      (via (color_red _ _ (weaker now end month)) (lt_ℤ-IsBefore now end))

end_color-green : (now end : ℤ) → (end_color now end ≡ green) ↔ IsBefore (plus_ℕ now month) end
end_color-green now end =
    rw (end_color-color_of now end)
      (via (color_green _ (lt_ℤ now end)) (lt_ℤ-IsBefore (plus_ℕ now month) end))

-- Neither date is red exactly where the clock stands strictly between them, and both are green
-- exactly where it is more than a day behind the first and more than a month in front of the last.
pub dates_colors :
    (now start end : ℤ)
    → ((start_color now start ≢ red × end_color now end ≢ red)
        ↔ (IsBefore start now × IsBefore now end))
      × ((start_color now start ≡ green × end_color now end ≡ green)
          ↔ (IsBefore (plus_ℕ start day) now × IsBefore (plus_ℕ now month) end))
dates_colors now start end = (
  pair (start_color-red now start) (end_color-red now end),
  pair (start_color-green now start) (end_color-green now end),
)
