-- ===== src/Starttls/Psql/Options.antt =====
-- starttls/psql/conn.go: the options with which `DumpTLS` connects.
use certigo.Base.{
  [], ◌∷◌, ◌≡◌, refl, ap, sym, ◌∙◌, Option, none, some, Bool-cases, false, Bytes, str, bytes_eq,
  bytes_eq_iff, Result, Result-cases, value, error, not, ◌&&◌, is_empty, inl, inr,
}
use certigo.Base.Dict.{Dict, lookup, insert, lookup-insert}
use certigo.Starttls.Psql.{
  Driver, found_or_empty, get, with_fallback, with_encoding, with_date_style, with_user, settle,
  options, plain_name, set_all, default_options,
}

abbrev options_of : Result Bytes (Dict Bytes) → Dict Bytes → Dict Bytes
options_of (value o) p = o
options_of (error e) p = p

abbrev encoding : Bytes
encoding = str "client_encoding"

abbrev style : Bytes
style = str "datestyle"

found-some :
    (found : Option Bytes) (v : Bytes)
    → is_empty v ≡ false
    → found_or_empty found ≡ v
    → found ≡ some v
found-some none [] h e = absurd (cc)
found-some none (b ∷ bs) h e = absurd (cc)
found-some (some w) v h e = ap some e

-- The options that a result is known to hold.
result-lookup :
    (k : Bytes) (o p : Dict Bytes)
    → ◌≡◌ {A = Result Bytes (Dict Bytes)} (value o) (value p)
    → lookup k p ≡ lookup k o
result-lookup k o p e = sym (ap (λ r. lookup k (options_of r o)) e)

insert-lookup :
    (j k v : Bytes) (o : Dict Bytes) → bytes_eq j k ≡ false → lookup k (insert j v o) ≡ lookup k o
insert-lookup j k v o other = rw (lookup-insert j k v o, other) refl

insert-lookup_same : (k v : Bytes) (o : Dict Bytes) → lookup k (insert k v o) ≡ some v
insert-lookup_same k v o =
    let same = (bytes_eq_iff k k).1 refl in rw (lookup-insert k k v o, same) refl

module _ (D : Driver) where
  with_user-lookup :
      (k : Bytes) (o : Dict Bytes) {p : Dict Bytes}
      → bytes_eq (str "user") k ≡ false
      → with_user D o ≡ value p
      → lookup k p ≡ lookup k o
  with_user-lookup k o other = elim (Bool-cases (is_empty (get (str "user") o))) [
    | inr h ↦ rw h (λ e. result-lookup k o _ e)
    | inl h ↦ elim (Result-cases D.user_current) [
      | inl (e, hu) ↦ rw (h, hu) (λ e. absurd (cc))
      | inr (u, hu) ↦
          rw (h, hu) (λ e. result-lookup k _ _ e ∙ insert-lookup (str "user") k u o other)
    ]
  ]

  with_date_style-lookup :
      (o : Dict Bytes) {p : Dict Bytes}
      → with_date_style D o ≡ value p
      → (lookup style p ≡ some (str "ISO, MDY")) × (lookup encoding p ≡ lookup encoding o)
  with_date_style-lookup o = elim (Bool-cases (is_empty (get style o))) [
    | inl h ↦ rw h (λ e. (
      result-lookup style _ _ e ∙ insert-lookup_same style (str "ISO, MDY") o,
      result-lookup encoding _ _ e
          ∙ insert-lookup style encoding (str "ISO, MDY") o (unfold bytes_eq in refl),
    ))
    | inr h ↦ elim (Bool-cases (bytes_eq (get style o) (str "ISO, MDY"))) [
      | inr hs ↦ rw (h, hs) (λ e. absurd (cc))
      | inl hs ↦
          rw (h, hs)
            (λ e. (
              result-lookup style _ _ e
                  ∙ found-some (lookup style o) (str "ISO, MDY") refl ((bytes_eq_iff _ _).0 hs),
              result-lookup encoding _ _ e,
            ))
    ]
  ]

  with_encoding-lookup :
      (o : Dict Bytes) {p : Dict Bytes}
      → with_encoding D o ≡ value p
      → lookup encoding p ≡ some (str "UTF8")
  with_encoding-lookup o =
      elim (Bool-cases (not (is_empty (get encoding o)) && not (D.is_utf8 (get encoding o)))) [
        | inl h ↦ rw h (λ e. absurd (cc))
        | inr h ↦
            rw h (λ e. result-lookup encoding _ _ e ∙ insert-lookup_same encoding (str "UTF8") o)
      ]

  settle-lookup :
      (o : Dict Bytes) {p : Dict Bytes}
      → settle D o ≡ value p
      → (lookup encoding p ≡ some (str "UTF8")) × (lookup style p ≡ some (str "ISO, MDY"))
  unfolding settle
  settle-lookup o = elim (Result-cases (with_encoding D (with_fallback o))) [
    | inl (e, he) ↦ rw (he, settle) (λ h. absurd (cc))
    | inr (encoded, he) ↦ elim (Result-cases (with_date_style D encoded)) [
      | inl (e, hd) ↦ rw (he, settle, hd) (λ h. absurd (cc))
      | inr (dated, hd) ↦
          let (dates, codes) = with_date_style-lookup encoded hd in
          rw (he, settle, hd)
            (λ h. (
              with_user-lookup encoding dated (unfold bytes_eq in refl) h
                  ∙ codes
                  ∙ with_encoding-lookup (with_fallback o) he,
              with_user-lookup style dated (unfold bytes_eq in refl) h ∙ dates,
            ))
    ]
  ]

  -- Whatever options the name and the environment give: those with which the driver connects have
  -- the encoding UTF8 and the date style ISO, MDY.
  options-lookup :
      (name : Bytes) {p : Dict Bytes}
      → options D name ≡ value p
      → (lookup encoding p ≡ some (str "UTF8")) × (lookup style p ≡ some (str "ISO, MDY"))
  unfolding options
  options-lookup name = elim (Result-cases D.parse_environ) [
    | inl (e, h) ↦ rw (h, options) (λ k. absurd (cc))
    | inr (environ, h) ↦ elim (Result-cases (plain_name D name)) [
      | inl (e, hn) ↦ rw (h, options, hn) (λ k. absurd (cc))
      | inr (plain, hn) ↦
          elim (Result-cases (D.parse_opts plain (set_all environ default_options))) [
            | inl (e, ho) ↦ rw (h, options, hn, ho) (λ k. absurd (cc))
            | inr (o, ho) ↦ rw (h, options, hn, ho) (settle-lookup o)
          ]
    ]
  ]
