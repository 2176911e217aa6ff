-- ===== src/Certs/Stream/KeyStores.antt =====
-- lib/certs.go and jceks/jceks.go: the certificates that `readCertsFromStream` looks up in a key store.
use certigo.Base.{
  value, Option, List, [], ◌∷◌, ◌≡◌, refl, sym, ◌∙◌, some, true, Bytes, str, bytes_eq_refl,
  Option-cases, Result-cases, inl, inr, continue, ◌>>◌, Outcome, ok, err, panic, M, ◌≢◌, arith,
}
use certigo.Base.Dict.{Dict}
use certigo.Jceks.Types.{KeyStore}
use certigo.Jceks.Parse.{load_from_reader}
use certigo.Jceks.Access.{Retrieved, get_cert, list_certs, list_private_keys}
use certigo.Jceks.Access.Listing.{contains, is_some, IsVisit, contains-listing}
use certigo.Jceks.Access.Unique.{load-NodupKeys}
use certigo.X509.{Certificate}
use certigo.Certs.{Block, for_each}
use certigo.Certs.Stream.{
  Libraries, Passwords, OnBlock, on_cert_alias, on_key_alias, on_retrieved, read_jceks,
  on_key_store, with_password, encode_x509_to_pem, named_headers, key_to_pem,
}

module _ {S : Type 0} where
  -- An action that panics in no state.
  abbrev pub NeverPanics : M S Bytes (Unit {0}) → Type 0
  NeverPanics m = (s : S) → (m s).0 ≢ panic

  then-NeverPanics :
      (m k : M S Bytes (Unit {0})) → NeverPanics m → NeverPanics k → NeverPanics (m >> k)
  then-NeverPanics m k hm hk s = step (m s) (hm s)
    where
      step : (r : Outcome Bytes (Unit {0}) × S) → r.0 ≢ panic → (continue (λ _. k) r).0 ≢ panic
      step (ok u, s₁) hr = hk s₁
      step (err e, s₁) hr = λ e. cc
      step (panic, s₁) hr = absurd (hr refl)

  for_each-NeverPanics_listed :
      (f : Bytes → M S Bytes (Unit {0})) (names : List Bytes)
      → ((a : Bytes) → contains a names ≡ true → NeverPanics (f a))
      → NeverPanics (for_each f names)
  unfolding for_each
  for_each-NeverPanics_listed f [] h = λ s e. cc
  for_each-NeverPanics_listed f (a ∷ rest) h =
      then-NeverPanics (f a) (for_each f rest) (h a (rw (bytes_eq_refl a)))
        (for_each-NeverPanics_listed f rest (λ b hb. h b (rw (hb) (ground arith))))

  for_each-NeverPanics :
      {A : Type 0} (f : A → M S Bytes (Unit {0})) (items : List A)
      → ((a : A) → NeverPanics (f a))
      → NeverPanics (for_each f items)
  unfolding for_each
  for_each-NeverPanics f [] h = λ s e. cc
  for_each-NeverPanics f (a ∷ rest) h =
      then-NeverPanics (f a) (for_each f rest) (h a) (for_each-NeverPanics f rest h)

  module _ (L : Libraries) (password : Passwords S) (callback : OnBlock S)
      (headers : Dict Bytes) where
    abbrev OnBlockNeverPanics : Type 0
    OnBlockNeverPanics = (block : Block) (format : Bytes) → NeverPanics (callback block format)

    on_cert_alias-NeverPanics :
        (ks : KeyStore Certificate) (alias : Bytes)
        → OnBlockNeverPanics
        → is_some (get_cert ks alias) ≡ true
        → NeverPanics (on_cert_alias L password callback headers ks alias)
    unfolding on_cert_alias
    on_cert_alias-NeverPanics ks alias quiet found s = elim (Option-cases (get_cert ks alias)) [
      | inl e ↦ absurd (ground (arith, e, found))
      | inr (cert, e) ↦ rw (e, on_cert_alias) (quiet _ _ s)
    ]

    with_password-NeverPanics :
        {prompt secret : Bytes} (next : Bytes → M S Bytes (Unit {0}))
        → password.read prompt ≡ value secret
        → NeverPanics (next secret)
        → NeverPanics (with_password password prompt next)
    with_password-NeverPanics next answer h s = rw (answer, with_password) (h s)

    on_retrieved-NeverPanics :
        (alias : Bytes) (found : Retrieved L.crypto.Key Certificate)
        → OnBlockNeverPanics
        → NeverPanics (on_retrieved L password callback headers alias found)
    on_retrieved-NeverPanics alias found quiet s = elim (Option-cases found.error) [
      | inr (e, h) ↦ rw h (λ p. cc)
      | inl h ↦ elim (Result-cases (key_to_pem L found.key (named_headers headers alias))) [
        | inl (e, hk) ↦ rw (h, hk) (λ p. cc)
        | inr (block, hk) ↦
            rw (h, hk)
              (then-NeverPanics (callback block (str "JCEKS"))
                (for_each
                  (λ cert.
                    callback (encode_x509_to_pem cert (named_headers headers alias)) (str "JCEKS"))
                  found.certs)
                (quiet block (str "JCEKS")) (for_each-NeverPanics _ found.certs (λ cert. quiet _ _))
                s)
      ]
    ]

    on_key_alias-NeverPanics :
        (ks : KeyStore Certificate) (alias : Bytes)
        → OnBlockNeverPanics
        → {secret : Bytes} → password.read alias ≡ value secret
        → NeverPanics (on_key_alias L password callback headers ks alias)
    unfolding on_key_alias
    on_key_alias-NeverPanics ks alias quiet answer =
        with_password-NeverPanics _ answer (on_retrieved-NeverPanics alias _ quiet)

    -- Where every prompt is answered and the key store loads, under a callback that never panics, in
    -- whatever order the map is visited, none of its names leads to a nil certificate: reading it
    -- never panics.
    pub read_jceks-NeverPanics :
        (content : Bytes) (failure : Option Bytes) {ks : KeyStore Certificate}
        → IsVisit L.visit
        → ((block : Block) (format : Bytes) → NeverPanics (callback block format))
        → ((prompt : Bytes) → (secret : Bytes) × (password.read prompt ≡ value secret))
        → {secret : Bytes} → password.read [] ≡ value secret
        → load_from_reader L.parse_certificate L.sha1 content (some secret) ≡ ok ks
        → NeverPanics (read_jceks L password callback headers content failure)
    unfolding read_jceks on_key_store
    read_jceks-NeverPanics content failure {ks} visits quiet answers {secret} answer loads =
        with_password-NeverPanics _ answer (
          rw loads (
            then-NeverPanics
              (for_each (on_cert_alias L password callback headers ks) (list_certs L.visit ks))
              (for_each (on_key_alias L password callback headers ks)
                (list_private_keys L.visit ks))
              (for_each-NeverPanics_listed _ (list_certs L.visit ks) (λ alias listed.
                on_cert_alias-NeverPanics ks alias quiet (
                  sym (
                    (contains-listing L.visit ks alias visits
                      (load-NodupKeys L.parse_certificate L.sha1 (some secret) content loads)).0)
                  ∙ listed)))
              (for_each-NeverPanics_listed _ (list_private_keys L.visit ks)
                (λ alias listed. on_key_alias-NeverPanics ks alias quiet (answers alias).1))))
