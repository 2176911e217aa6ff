-- ===== src/Jceks/Access/Orders.antt =====
-- jceks/jceks.go: `ListCerts` and `ListPrivateKeys` under two orders of the visits to the map.
use mathlib.Core.List.{filter_map, Permᴰ}
use mathlib.Core.List.Permᴰ
use certigo.Base.{[], ◌∷◌, ◌≡◌, refl, ap, Option, none, some, Bytes}
use certigo.Base.Dict.{Dict}
use certigo.Jceks.Types.{Entry, private_key, trusted_cert, KeyStore}
use certigo.Jceks.Access.{private_aliases, cert_aliases, list_private_keys, list_certs}
use certigo.Jceks.Access.Listing.{IsVisit}

module _ {Cert : Type 0} where
  abbrev cert_alias : Bytes × Entry Cert → Option Bytes
  cert_alias (k, private_key _ _ _) = none
  cert_alias (k, trusted_cert _ _) = some k

  abbrev private_alias : Bytes × Entry Cert → Option Bytes
  private_alias (k, private_key _ _ _) = some k
  private_alias (k, trusted_cert _ _) = none

  cert_aliases-filter_map : (m : Dict (Entry Cert)) → cert_aliases m ≡ filter_map cert_alias m
  unfolding cert_aliases filter_map
  cert_aliases-filter_map [] = refl
  cert_aliases-filter_map ((k, private_key _ _ _) ∷ m) = cert_aliases-filter_map m
  cert_aliases-filter_map ((k, trusted_cert _ _) ∷ m) =
      ap (λ ks. k ∷ ks) (cert_aliases-filter_map m)

  private_aliases-filter_map :
      (m : Dict (Entry Cert)) → private_aliases m ≡ filter_map private_alias m
  unfolding private_aliases filter_map
  private_aliases-filter_map [] = refl
  private_aliases-filter_map ((k, private_key _ _ _) ∷ m) =
      ap (λ ks. k ∷ ks) (private_aliases-filter_map m)
  private_aliases-filter_map ((k, trusted_cert _ _) ∷ m) = private_aliases-filter_map m

  module _ (v w : Dict (Entry Cert) → Dict (Entry Cert)) (hv : IsVisit v) (hw : IsVisit w)
      (ks : KeyStore Cert) where
    two_visits : Permᴰ (v ks.entries) (w ks.entries)
    two_visits = Permᴰ.trans (hv.order ks.entries) (Permᴰ.symm (hw.order ks.entries))

    pub list_certs-Permᴰ : Permᴰ (list_certs v ks) (list_certs w ks)
    unfolding list_certs
    list_certs-Permᴰ =
        rw (cert_aliases-filter_map, cert_aliases-filter_map)
          (Permᴰ.filter_map cert_alias two_visits)

    pub list_private_keys-Permᴰ : Permᴰ (list_private_keys v ks) (list_private_keys w ks)
    unfolding list_private_keys
    list_private_keys-Permᴰ =
        rw (private_aliases-filter_map, private_aliases-filter_map)
          (Permᴰ.filter_map private_alias two_visits)
