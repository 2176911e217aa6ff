-- ===== src/Cli/Codes.antt =====
-- cli/cli.go: what an exit code says of a run.
use certigo.Base.{
  Option, error, ◌⊎◌, zero, suc, [], ◌∷◌, ◌++◌, ◌≡◌, ◌≢◌, refl, Bool, true, false, Bytes,
  if◌then◌else◌, ◌&&◌, Bool-cases, inl, inr,
}
use certigo.Terminal.{Terminal}
use certigo.Cli.{Host, Session, Exit, exits, crashes, stopped, print_err}

pub append-filled : (xs ys : Bytes) → ys ≢ [] → xs ++ ys ≢ []
append-filled [] ys h = h
append-filled (x ∷ xs) ys h = λ e. cc

-- The terminal fails to answer a prompt.
abbrev pub Refuses : Terminal → Type 0
Refuses tty =
    (default : Option Bytes) × (prompt : Bytes) × (e : Bytes) × (tty.password default prompt
      ≡ error e)

-- A session that has ended without a password has had no answer.
pub record Excused {W : Type 0} (refused : Type 0) (s : Session W) : Type 0 where
  pub excuse : s.gave_up ≡ true → refused

module _ {W : Type 0} (H : Host W) (refused : Type 0) where
  -- The code 1 is that of a verification that was asked for, or of a password that was refused, 2 comes with a text on the error stream,
  -- and 3 where a text cannot be written there.
  abbrev pub Says : Bool → Exit × Session W → Type 0
  Says asked (crashes, s) = Unit {0}
  Says asked (exits zero, s) = Unit {0}
  Says asked (exits (suc zero), s) = (asked ≡ true) ⊎ refused
  Says asked (exits (suc (suc zero)), s) = s.errors ≢ []
  Says asked (exits (suc (suc (suc zero))), s) = (text : Bytes) × (H.is_broken text ≡ true)
  Says asked (exits (suc (suc (suc (suc n)))), s) = ⊥

  pub record IsDocumented (asked : Bool) (ended : Exit × Session W) : Type 0 where
    pub says : Says asked ended

  pub crashes-IsDocumented : (asked : Bool) (s : Session W) → IsDocumented asked (crashes, s)
  crashes-IsDocumented asked s = record { says = tt }

  pub stopped-IsDocumented :
      (asked : Bool) (s : Session W) → Excused refused s → IsDocumented asked (stopped s)
  stopped-IsDocumented asked s h = elim (Bool-cases s.gave_up) [
    | inl hg ↦ rw hg (record { says = inr (h.excuse hg) })
    | inr hg ↦ rw hg (record { says = tt })
  ]

  pub if-IsDocumented :
      (asked b : Bool) (p q : Exit × Session W)
      → IsDocumented asked p
      → IsDocumented asked q
      → IsDocumented asked (if b then p else q)
  if-IsDocumented asked true p q hp hq = hp
  if-IsDocumented asked false p q hp hq = hq

  pub print_err-IsDocumented :
      (asked : Bool) (text : Bytes) (s : Session W)
      → text ≢ []
      → IsDocumented asked (print_err H text s)
  unfolding print_err
  print_err-IsDocumented asked text s h = elim (Bool-cases (H.is_broken text)) [
    | inl hb ↦ rw (hb, print_err) (record { says = (text, hb) })
    | inr hb ↦ rw (hb, print_err) (record { says = append-filled s.errors text h })
  ]

  -- The code of a result is 1 only where it was asked for.
  pub told-IsDocumented :
      (asked tells : Bool) (s : Session W)
      → IsDocumented asked (exits (if asked && tells then 1 else 0), s)
  told-IsDocumented true true s = record { says = inl refl }
  told-IsDocumented true false s = record { says = tt }
  told-IsDocumented false tells s = record { says = tt }
