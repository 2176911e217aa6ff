-- ===== src/Jceks/Access.antt =====
-- jceks/jceks.go: `GetPrivateKeyAndCerts`, `GetCert`, `ListPrivateKeys` and `ListCerts`. The order in
-- which Go visits the map is the parameter `visit`.
pub mod Listing
pub mod Orders
pub mod Unique
use certigo.Base.{List, [], ◌∷◌, Option, none, some, Bytes, Result, value, error}
use certigo.Base.Dict.{Dict, lookup}
use certigo.Jceks.Types.{Error, no_certificates, Entry, private_key, trusted_cert, KeyStore}
use certigo.Jceks.Crypto.{Crypto}
use certigo.Jceks.Recover.{recover}

-- The three named results; no certificates stand for a nil slice.
pub record Retrieved (Key Cert : Type 0) : Type 0 where
  pub key : Option Key
  pub certs : List Cert
  pub error : Option Error

module _ {Cert : Type 0} where
  unfoldable pub cert_of : Option (Entry Cert) → Option Cert
  cert_of (some (trusted_cert _ cert)) = some cert
  cert_of (some (private_key _ _ _)) = none
  cert_of none = none

  unfoldable pub get_cert : KeyStore Cert → Bytes → Option Cert
  unfolding cert_of
  get_cert ks alias = cert_of (lookup alias ks.entries)

  module _ (C : Crypto) where
    abbrev pub nothing : Retrieved C.Key Cert
    nothing = record { key = none; certs = []; error = none }

    abbrev with_chain : List Cert → Result Error C.Key → Retrieved C.Key Cert
    with_chain certs (value key) = record { key = some key; certs = certs; error = none }
    with_chain certs (error e) = record { key = none; certs = []; error = some e }

    unfoldable pub retrieve : Option (Entry Cert) → Bytes → Retrieved C.Key Cert
    retrieve none password = nothing
    retrieve (some (trusted_cert _ _)) password = nothing
    retrieve (some (private_key _ _ [])) password = record {
      key = none;
      certs = [];
      error = some no_certificates;
    }
    retrieve (some (private_key _ encoded_key (c ∷ cs))) password =
        with_chain (c ∷ cs) (recover C encoded_key password)

    unfoldable pub get_private_key_and_certs : KeyStore Cert → Bytes → Bytes → Retrieved C.Key Cert
    unfolding retrieve
    get_private_key_and_certs ks alias password = retrieve (lookup alias ks.entries) password

  unfoldable pub private_aliases : Dict (Entry Cert) → List Bytes
  private_aliases [] = []
  private_aliases ((k, private_key _ _ _) ∷ m) = k ∷ private_aliases m
  private_aliases ((k, trusted_cert _ _) ∷ m) = private_aliases m

  unfoldable pub cert_aliases : Dict (Entry Cert) → List Bytes
  cert_aliases [] = []
  cert_aliases ((k, private_key _ _ _) ∷ m) = cert_aliases m
  cert_aliases ((k, trusted_cert _ _) ∷ m) = k ∷ cert_aliases m

  module _ (visit : Dict (Entry Cert) → Dict (Entry Cert)) where
    unfoldable pub list_private_keys : KeyStore Cert → List Bytes
    unfolding private_aliases
    list_private_keys ks = private_aliases (visit ks.entries)

    unfoldable pub list_certs : KeyStore Cert → List Bytes
    unfolding cert_aliases
    list_certs ks = cert_aliases (visit ks.entries)
