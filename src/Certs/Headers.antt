-- ===== src/Certs/Headers.antt =====
-- lib/certs.go: the headers that `mergeHeaders` gives.
use certigo.Base.{
  [], ◌∷◌, ◌≡◌, refl, subst, Option, none, some, Bytes, bytes_eq, bytes_eq_iff, Bool-cases, inl,
  inr,
}
use certigo.Base.Dict.{Dict, lookup, insert, lookup-insert, NodupKeys, insert-NodupKeys}
use certigo.Certs.{merge_headers}

-- The first of two answers that there is.
abbrev pub or_else : {A : Type 0} → Option A → Option A → Option A
or_else (some a) b = some a
or_else none b = b

or_else-none : {A : Type 0} (o : Option A) → o ≡ none → (b : Option A) → or_else o b ≡ b
or_else-none none e b = refl
or_else-none (some a) e b = cc

-- The header of a name is that of the extra headers, where they have it, else that of the base.
lookup-merge_headers :
    (base extra : Dict Bytes) (k : Bytes)
    → NodupKeys extra
    → lookup k (merge_headers base extra) ≡ or_else (lookup k extra) (lookup k base)
unfolding merge_headers lookup
lookup-merge_headers base [] k u = refl
lookup-merge_headers base ((j, v) ∷ extra) k (fresh, u) = elim (Bool-cases (bytes_eq j k)) [
  | inl same ↦
      rw (lookup-merge_headers (insert j v base) extra k u, lookup-insert j k v base, same)
        (or_else-none _ (subst (λ i. lookup i extra ≡ none) ((bytes_eq_iff j k).0 same) fresh) _)
  | inr other ↦
      rw (lookup-merge_headers (insert j v base) extra k u, lookup-insert j k v base, other) refl
]

-- No header is held twice.
pub merge_headers-NodupKeys :
    (base extra : Dict Bytes) → NodupKeys base → NodupKeys (merge_headers base extra)
unfolding merge_headers
merge_headers-NodupKeys base [] u = u
merge_headers-NodupKeys base ((j, v) ∷ extra) u =
    merge_headers-NodupKeys (insert j v base) extra (insert-NodupKeys j v base u)
