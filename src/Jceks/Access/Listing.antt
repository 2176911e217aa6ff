-- ===== src/Jceks/Access/Listing.antt =====
-- jceks/jceks.go: what `ListCerts` and `ListPrivateKeys` list, against what `GetCert` and
-- `GetPrivateKeyAndCerts` find.
use certigo.Base.{
  List, [], ◌∷◌, ◌≡◌, refl, ap, ◌∙◌, Option, none, some, Bytes, true, false, Bool, ◌||◌, arith,
  bytes_eq, bytes_eq_iff, subst, Bool-cases, inl, inr,
}
use certigo.Base.Dict.{Dict, lookup, NodupKeys, lookup-Permᴰ}
use mathlib.Core.List.{Permᴰ}
use mathlib.Core.List.Permᴰ
use certigo.Jceks.Types.{Entry, private_key, trusted_cert, KeyStore}
use certigo.Jceks.Access.{
  cert_of, get_cert, private_aliases, cert_aliases, list_private_keys, list_certs,
}

abbrev pub contains : Bytes → List Bytes → Bool
contains k [] = false
contains k (j ∷ js) = bytes_eq j k || contains k js

abbrev pub is_some : {A : Type 0} → Option A → Bool
is_some none = false
is_some (some a) = true

module _ {Cert : Type 0} where
  abbrev pub is_private : Option (Entry Cert) → Bool
  is_private (some (private_key _ _ _)) = true
  is_private (some (trusted_cert _ _)) = false
  is_private none = false

  -- A visit goes through the entries of a map, each once, in some order.
  pub record IsVisit (visit : Dict (Entry Cert) → Dict (Entry Cert)) : Type 0 where
    pub order : (m : Dict (Entry Cert)) → Permᴰ (visit m) m

  lookup-fresh :
      (j k : Bytes) (m : Dict (Entry Cert))
      → lookup j m ≡ none
      → bytes_eq j k ≡ true
      → lookup k m ≡ none
  lookup-fresh j k m fresh e = subst (λ i. lookup i m ≡ none) ((bytes_eq_iff j k).0 e) fresh

  contains-cert_aliases :
      (k : Bytes) (m : Dict (Entry Cert))
      → NodupKeys m
      → contains k (cert_aliases m) ≡ is_some (cert_of (lookup k m))
  unfolding cert_aliases cert_of lookup
  contains-cert_aliases k [] u = refl
  contains-cert_aliases k ((j, private_key d e c) ∷ m) (fresh, u) =
      elim (Bool-cases (bytes_eq j k)) [
        | inl same ↦ rw same (
            contains-cert_aliases k m u
            ∙ ap (λ o. is_some (cert_of o)) (lookup-fresh j k m fresh same))
        | inr other ↦ rw other (contains-cert_aliases k m u)
      ]
  contains-cert_aliases k ((j, trusted_cert d c) ∷ m) (fresh, u) =
      ground (arith, bytes_eq_iff j k, contains-cert_aliases k m u)

  contains-private_aliases :
      (k : Bytes) (m : Dict (Entry Cert))
      → NodupKeys m
      → contains k (private_aliases m) ≡ is_private (lookup k m)
  unfolding private_aliases lookup
  contains-private_aliases k [] u = refl
  contains-private_aliases k ((j, trusted_cert d c) ∷ m) (fresh, u) =
      elim (Bool-cases (bytes_eq j k)) [
        | inl same ↦
            rw same (contains-private_aliases k m u ∙ ap is_private (lookup-fresh j k m fresh same))
        | inr other ↦ rw other (contains-private_aliases k m u)
      ]
  contains-private_aliases k ((j, private_key d e c) ∷ m) (fresh, u) =
      ground (arith, bytes_eq_iff j k, contains-private_aliases k m u)

  -- In whatever order the map is visited, a name is listed as a certificate exactly where `GetCert`
  -- finds one, and as a private key exactly where the map holds one.
  pub contains-listing :
      (visit : Dict (Entry Cert) → Dict (Entry Cert)) (ks : KeyStore Cert) (alias : Bytes)
      → IsVisit visit
      → NodupKeys ks.entries
      → (contains alias (list_certs visit ks) ≡ is_some (get_cert ks alias))
        × (contains alias (list_private_keys visit ks) ≡ is_private (lookup alias ks.entries))
  unfolding list_certs list_private_keys get_cert
  contains-listing visit ks alias v u =
      let same = lookup-Permᴰ (Permᴰ.symm (v.order ks.entries)) u in
      (
        contains-cert_aliases alias (visit ks.entries) same.nodup
            ∙ ap (λ o. is_some (cert_of o)) (same.found alias),
        contains-private_aliases alias (visit ks.entries) same.nodup
            ∙ ap is_private (same.found alias),
      )
