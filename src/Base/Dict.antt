-- ===== src/Base/Dict.antt =====
-- Go maps keyed by strings, as association lists that hold a key at most once. The order in which
-- Go visits a map is unspecified: what visits one takes the order as a parameter.
use certigo.Base.Tests.{if◌then◌else◌}
use certigo.Base.Text.{Bytes, bytes_eq, bytes_eq_iff, bytes_eq_refl}
use mathlib.Core.Path.{◌≡◌, refl, ap, ◌∙◌, subst}
use mathlib.Core.Option.{Option, none, some}
use mathlib.Core.List.{List, [], ◌∷◌, ◌++◌, Permᴰ}
use native.Mathlib.Omega.{arith}

abbrev pub Dict {ℓ} : Type ℓ → Type ℓ
Dict V = List (Bytes × V)

module _ {ℓ} {V : Type ℓ} where
  unfoldable pub lookup : Bytes → Dict V → Option V
  lookup k [] = none
  lookup k ((j, v) ∷ m) = if bytes_eq j k then some v else lookup k m

  unfoldable pub insert : Bytes → V → Dict V → Dict V
  insert k v [] = (k, v) ∷ []
  insert k v ((j, w) ∷ m) = if bytes_eq j k then (k, v) ∷ m else (j, w) ∷ insert k v m

  -- No key is held twice.
  abbrev pub NodupKeys : Dict V → Type ℓ
  NodupKeys [] = Unit {ℓ}
  NodupKeys ((k, _) ∷ m) = (lookup k m ≡ none) × NodupKeys m

module _ {ℓ} {V : Type ℓ} where
  pub lookup-insert :
      (k j : Bytes) (v : V) (m : Dict V)
      → lookup j (insert k v m) ≡ (if bytes_eq k j then some v else lookup j m)
  unfolding lookup insert
  lookup-insert k j v [] = refl
  lookup-insert k j v ((i, w) ∷ m) =
      ground (arith, bytes_eq_iff k j, bytes_eq_iff i k, bytes_eq_iff i j, lookup-insert k j v m)

  pub insert-NodupKeys : (k : Bytes) (v : V) (m : Dict V) → NodupKeys m → NodupKeys (insert k v m)
  unfolding insert lookup
  insert-NodupKeys k v [] u = (refl, tt)
  insert-NodupKeys k v ((j, w) ∷ m) (fresh, u) =
      ground
        (arith, bytes_eq_iff j k, bytes_eq_iff k j, lookup-insert k j v m, insert-NodupKeys k v m u)

  -- A dictionary with the entries of another one, in another order.
  pub record Rearranges (m n : Dict V) : Type ℓ where
    pub nodup : NodupKeys n
    pub found : (k : Bytes) → lookup k n ≡ lookup k m

  cons-Rearranges :
      (e : Bytes × V) (m n : Dict V)
      → lookup e.0 m ≡ none
      → Rearranges m n
      → Rearranges (e ∷ m) (e ∷ n)
  unfolding lookup
  cons-Rearranges (j, v) m n fresh h = record {
    nodup = (h.found j ∙ fresh, h.nodup);
    found = λ k. ap (λ r. if bytes_eq j k then some v else r) (h.found k);
  }

  swap-Rearranges :
      (d e : Bytes × V) (m : Dict V) → NodupKeys (d ∷ e ∷ m) → Rearranges (d ∷ e ∷ m) (e ∷ d ∷ m)
  unfolding lookup
  swap-Rearranges (i, v) (j, w) m (fresh, (fresh', u)) = record {
    nodup = ground (arith, bytes_eq_iff i j, bytes_eq_iff j i, fresh, fresh', u);
    found = λ k.
        ground
          (arith, bytes_eq_iff i j, bytes_eq_iff j i, bytes_eq_iff i k, bytes_eq_iff j k, fresh);
  }

  -- The order of the entries says nothing of what is found, where no key is held twice.
  pub lookup-Permᴰ : {m n : Dict V} → Permᴰ m n → NodupKeys m → Rearranges m n
  lookup-Permᴰ Permᴰ.nil u = record { nodup = u; found = λ k. refl }
  lookup-Permᴰ (Permᴰ.cons {a = d} {l₁ = m} {l₂ = n} e p) (fresh, u) =
      subst (λ c. Rearranges (d ∷ m) (c ∷ n)) e (cons-Rearranges d m n fresh (lookup-Permᴰ p u))
  lookup-Permᴰ (Permᴰ.swap {a = d} {b = e} {a' = e'} {l = m} h₁ h₂) u =
      subst (λ c. Rearranges (d ∷ e ∷ m) (e' ∷ c ∷ m)) h₁
        (subst (λ c. Rearranges (d ∷ e ∷ m) (c ∷ d ∷ m)) h₂ (swap-Rearranges d e m u))
  lookup-Permᴰ (Permᴰ.trans p q) u =
      let first = lookup-Permᴰ p u in
      let second = lookup-Permᴰ q first.nodup in
      record { nodup = second.nodup; found = λ k. second.found k ∙ first.found k }

  pub insert-fresh :
      (k : Bytes) (v : V) (m : Dict V) → lookup k m ≡ none → insert k v m ≡ m ++ (k, v) ∷ []
  unfolding lookup insert
  insert-fresh k v [] h = refl
  insert-fresh k v ((j, w) ∷ m) h = ground (arith, insert-fresh k v m)

  -- An entry behind others is fresh, and found.
  pub lookup-middle :
      (m n : Dict V) (k : Bytes) (v : V)
      → NodupKeys (m ++ (k, v) ∷ n)
      → (lookup k m ≡ none) × (lookup k (m ++ (k, v) ∷ n) ≡ some v)
  unfolding lookup
  lookup-middle [] n k v u = (refl, rw (bytes_eq_refl k) refl)
  lookup-middle ((j, w) ∷ m) n k v (fresh, u) =
      let (absent, there) = lookup-middle m n k v u in
      (
        ground (arith, bytes_eq_iff j k, fresh, absent, there),
        ground (arith, bytes_eq_iff j k, fresh, there),
      )
