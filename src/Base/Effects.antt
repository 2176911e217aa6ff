-- ===== src/Base/Effects.antt =====
-- What a call of a Go function that may fail ends in: a value, an error, or a panic. `M S E A` adds
-- the state that the call reads and changes, which survives an error.
use mathlib.Core.Path.{◌≡◌, refl}
use mathlib.Core.Logic.{◌⊎◌, inl, inr}

-- The answer of a library call: a value, or the text of its error.
pub data Result {ℓ κ} (E : Type ℓ) (A : Type κ) : Type (ℓ ⊔ κ) where
  value : A → Result E A
  error : E → Result E A

pub data Outcome {ℓ κ} (E : Type ℓ) (A : Type κ) : Type (ℓ ⊔ κ) where
  ok : A → Outcome E A
  err : E → Outcome E A
  panic : Outcome E A

abbrev pub M {ℓ κ} : Type ℓ → Type ℓ → Type κ → Type (ℓ ⊔ κ)
M S E A = S → Outcome E A × S

module _ {ℓ} {S E A : Type ℓ} where
  abbrev pub pure : A → M S E A
  pure a s = (ok a, s)

  abbrev pub fail : E → M S E A
  fail e s = (err e, s)

  abbrev pub crash : M S E A
  crash s = (panic, s)

module _ {ℓ} {S E A B : Type ℓ} where
  abbrev pub continue : (A → M S E B) → Outcome E A × S → Outcome E B × S
  continue f (ok a, s) = f a s
  continue f (err e, s) = (err e, s)
  continue f (panic, s) = (panic, s)

  infixl 5 ◌>>=◌
  abbrev pub ◌>>=◌ : M S E A → (A → M S E B) → M S E B
  ◌>>=◌ m f s = continue f (m s)

module _ {ℓ} {S E B : Type ℓ} where
  infixl 5 ◌>>◌
  abbrev pub ◌>>◌ : M S E (Unit {ℓ}) → M S E B → M S E B
  m >> k = m >>= λ _. k

pub Result-cases {ℓ κ} :
    {E : Type ℓ} {A : Type κ} (r : Result E A)
    → ((e : E) × (r ≡ error e)) ⊎ ((a : A) × (r ≡ value a))
Result-cases (error e) = inl (e, refl)
Result-cases (value a) = inr (a, refl)

pub Outcome-cases {ℓ κ} :
    {E : Type ℓ} {A : Type κ} (o : Outcome E A)
    → (o ≡ panic) ⊎ (((e : E) × (o ≡ err e)) ⊎ ((a : A) × (o ≡ ok a)))
Outcome-cases panic = inl refl
Outcome-cases (err e) = inr (inl (e, refl))
Outcome-cases (ok a) = inr (inr (a, refl))
