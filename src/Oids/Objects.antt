-- ===== src/Oids/Objects.antt =====
-- lib/oids.go and lib/encoder.go: the object of a name.
use certigo.Base.{
  ℕ, List, [], ◌∷◌, ◌++◌, ◌≡◌, ◌≢◌, refl, sym, ap, ◌∙◌, Option, none, some, Bool, true, false, not,
  ◌||◌, Bytes, str, bytes_eq, bytes_eq_iff, Bool-cases, inl, inr, Outcome, ok, err, panic, All,
  append_assoc, ◌≤◌, ◌==◌, arith,
}
use certigo.Base.Dict.{Dict, lookup, insert, lookup-insert}
use certigo.Base.Digits.{decimal, decimal_last, EndsInDigit}
use certigo.Jceks.Crypto.{Oid}
use certigo.X509.{Attribute, Name}
use certigo.Certs.Texts.{oid_text}
use certigo.Starttls.Address.{ends_with_byte}
use certigo.Starttls.Address.Ports.{ends_with_byte-concat}
use certigo.Oids.{
  OidDescription, Json, one, many, oid_names, described, describe_oid, add_value, put_attribute,
  put_attributes, put_key_id, name_object,
}

-- The names that hold one value.
abbrev is_single : Bytes → Bool
is_single slug = bytes_eq slug (str "common_name") || bytes_eq slug (str "ev_registration_number")

abbrev IsKind : OidDescription → Type 0
IsKind d = is_single d.slug ≡ not d.multiple

true-false : true ≢ false
true-false e = cc

oid_names_kinds : All (λ entry. IsKind entry.1) oid_names
unfolding bytes_eq
oid_names_kinds = (
  refl,
  (
    refl,
    (
      refl,
      (
        refl,
        (
          refl,
          (
            refl,
            (refl, (refl, (refl, (refl, (refl, (refl, (refl, (refl, (refl, (refl, tt)))))))))),
          ),
        ),
      ),
    ),
  ),
)

abbrev Found : {V : Type 0} → (V → Type 0) → Option V → Type 0
Found P none = Unit {0}
Found P (some v) = P v

lookup-All :
    {V : Type 0} (P : V → Type 0) (k : Bytes) (m : Dict V)
    → All (λ entry. P entry.1) m
    → Found P (lookup k m)
unfolding lookup
lookup-All P k [] h = tt
lookup-All P k ((j, w) ∷ m) (p, h) = elim (Bool-cases (bytes_eq j k)) [
  | inl same ↦ rw same p
  | inr other ↦ rw other (lookup-All P k m h)
]

other_end :
    (b : ℕ) (text t : Bytes)
    → 58 ≤ b
    → ends_with_byte b t ≡ true
    → EndsInDigit text
    → bytes_eq text t ≡ false
other_end b text t hb ends (front, c, e, hc) = elim (Bool-cases (bytes_eq text t)) [
  | inr differs ↦ differs
  | inl same ↦
      let reads : (c == b) ≡ true =
        sym (ends_with_byte-concat b c front)
        ∙ ap (ends_with_byte b) (sym e ∙ (bytes_eq_iff text t).0 same)
        ∙ ends in
      absurd (ground (arith, reads))
]

oid_text-EndsInDigit : (n : ℕ) (ns : Oid) → EndsInDigit (oid_text (n ∷ ns))
unfolding oid_text
oid_text-EndsInDigit n [] = decimal_last n
oid_text-EndsInDigit n (m ∷ ns) =
    let (front, c, e, hc) = oid_text-EndsInDigit m ns in
    (
      decimal n ++ b'.' ∷ front,
      c,
      ap (λ t. decimal n ++ b'.' ∷ t) e ∙ sym (append_assoc (decimal n) (b'.' ∷ front) (c ∷ [])),
      hc,
    )

oid_text_single : (oid : Oid) → is_single (oid_text oid) ≡ false
unfolding ends_with_byte
oid_text_single [] = unfold oid_text in unfold bytes_eq in refl
oid_text_single (n ∷ ns) = rw (
  other_end b'e' (oid_text (n ∷ ns)) (str "common_name") (omega arith) refl
      (oid_text-EndsInDigit n ns),
  other_end b'r' (oid_text (n ∷ ns)) (str "ev_registration_number") (omega arith) refl
      (oid_text-EndsInDigit n ns),
)

described-IsKind :
    (raw : Bytes) (o : Option OidDescription)
    → is_single raw ≡ false
    → Found IsKind o
    → IsKind (described raw o)
described-IsKind raw none h p = h
described-IsKind raw (some d) h p = p

describe_oid-IsKind : (oid : Oid) → IsKind (describe_oid oid)
unfolding describe_oid
describe_oid-IsKind oid =
    described-IsKind (oid_text oid) (lookup (oid_text oid) oid_names) (oid_text_single oid)
      (lookup-All IsKind (oid_text oid) oid_names oid_names_kinds)

-- A value that may be appended to, or none.
abbrev MayGrow : Option Json → Type 0
MayGrow none = Unit {0}
MayGrow (some (many texts)) = Unit {0}
MayGrow (some (one text)) = ⊥

-- Names that may come again hold lists.
abbrev IsKinded : Dict Json → Type 0
IsKinded out = (k : Bytes) → is_single k ≡ false → MayGrow (lookup k out)

-- The outcome is an object with that property.
abbrev Kept : Outcome Bytes (Dict Json) → Type 0
Kept (ok out) = IsKinded out
Kept (err e) = ⊥
Kept panic = ⊥

insert-IsKinded_many :
    (slug : Bytes) (texts : List Bytes) (out : Dict Json)
    → IsKinded out
    → IsKinded (insert slug (many texts) out)
insert-IsKinded_many slug texts out inv k hk = elim (Bool-cases (bytes_eq slug k)) [
  | inl same ↦ rw (lookup-insert slug k (many texts) out, same) tt
  | inr other ↦ rw (lookup-insert slug k (many texts) out, other) (inv k hk)
]

insert-IsKinded_one :
    (slug text : Bytes) (out : Dict Json)
    → is_single slug ≡ true
    → IsKinded out
    → IsKinded (insert slug (one text) out)
insert-IsKinded_one slug text out single inv k hk = elim (Bool-cases (bytes_eq slug k)) [
  | inl same ↦ absurd (true-false (sym single ∙ ap is_single ((bytes_eq_iff slug k).0 same) ∙ hk))
  | inr other ↦ rw (lookup-insert slug k (one text) out, other) (inv k hk)
]

add_value-Kept :
    (slug text : Bytes) (out : Dict Json) (o : Option Json)
    → MayGrow o
    → IsKinded out
    → Kept (elim (add_value text o) [
      | ok json ↦ ok (insert slug json out)
      | err e ↦ err e
      | panic ↦ panic
    ])
add_value-Kept slug text out none h inv = insert-IsKinded_many slug (text ∷ []) out inv
add_value-Kept slug text out (some (many texts)) h inv =
    insert-IsKinded_many slug (texts ++ text ∷ []) out inv
add_value-Kept slug text out (some (one t)) h inv = absurd h

put_attribute-Kept :
    (attribute : Attribute) (out : Dict Json) → IsKinded out → Kept (put_attribute attribute out)
unfolding put_attribute
put_attribute-Kept attribute out inv =
    let d = describe_oid attribute.oid in
    elim (Bool-cases d.multiple) [
      | inl h ↦ rw h (
          add_value-Kept d.slug attribute.text out (lookup d.slug out)
            (inv d.slug (describe_oid-IsKind attribute.oid ∙ ap not h)) inv)
      | inr h ↦ rw h (
          insert-IsKinded_one d.slug attribute.text out
            (describe_oid-IsKind attribute.oid ∙ ap not h) inv)
    ]

-- The rest of a loop, from what its first round came to.
Kept-next :
    (rest : Dict Json → Outcome Bytes (Dict Json)) (o : Outcome Bytes (Dict Json))
    → ((out : Dict Json) → IsKinded out → Kept (rest out))
    → Kept o
    → Kept (elim o [ ok out ↦ rest out | err e ↦ err e | panic ↦ panic ])
Kept-next rest (ok out) ih h = ih out h
Kept-next rest (err e) ih h = h
Kept-next rest panic ih h = h

put_attributes-Kept :
    (attributes : List Attribute) (out : Dict Json)
    → IsKinded out
    → Kept (put_attributes attributes out)
unfolding put_attributes
put_attributes-Kept [] out inv = inv
put_attributes-Kept (attribute ∷ attributes) out inv =
    Kept-next (put_attributes attributes) (put_attribute attribute out)
      (put_attributes-Kept attributes) (put_attribute-Kept attribute out inv)

Kept-ok : (o : Outcome Bytes (Dict Json)) → Kept o → (out : Dict Json) × (o ≡ ok out)
Kept-ok (ok out) h = (out, refl)
Kept-ok (err e) h = absurd h
Kept-ok panic h = absurd h

ok-put_key_id :
    (key_id : Bytes) (o : Outcome Bytes (Dict Json))
    → (out : Dict Json) × (o ≡ ok out)
    → (out : Dict Json) × (elim o [
      | ok out ↦ ok (put_key_id key_id out)
      | err e ↦ err e
      | panic ↦ panic
    ]
        ≡ ok out)
ok-put_key_id key_id o (out, e) = (put_key_id key_id out, rw e)

-- Whatever attributes a name has, in whatever order and however often, its object is made: no value
-- is appended to one that is no list.
pub name_object_total :
    (name : Name) (key_id : Bytes) → (out : Dict Json) × (name_object name key_id ≡ ok out)
unfolding name_object
name_object_total name key_id = ok-put_key_id key_id (put_attributes name.names []) (
    Kept-ok (put_attributes name.names [])
      (put_attributes-Kept name.names [] (λ k hk. unfold lookup in tt)))
