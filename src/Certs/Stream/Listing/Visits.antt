-- ===== src/Certs/Stream/Listing/Visits.antt =====
-- lib/certs.go and jceks/jceks.go: the blocks of an input under two orders of the visits to a map.
use certigo.Base.{
  take, subst, ℕ, zero, suc, length, List, [], ◌≡◌, refl, ◌∙◌, ap, Option, Option-cases, none, some,
  Result-cases, inl, inr, Bytes, str, bytes_eq, Result, value, error, Outcome, ok, err, panic,
}
use certigo.Base.Dict.{Dict}
use certigo.Jceks.Types.{KeyStore, Entry}
use certigo.Jceks.Types
use certigo.Jceks.Access.{Retrieved, list_private_keys}
use certigo.Jceks.Access.Listing.{IsVisit}
use certigo.Jceks.Access.Orders.{list_certs-Permᴰ, list_private_keys-Permᴰ}
use certigo.X509.{Certificate}
use certigo.Certs.{Block}
use certigo.Certs.Stream.{
  Libraries, named_headers, KeyKind, rsa_key, ecdsa_key, unknown_key, key_block, key_to_pem,
  pem_tokens, max_token,
}
use certigo.Certs.Stream.Listing.{
  Listing, gather, asking, key_listing, retrieved_listing, token_listing, cert_listing,
  alias_listing, key_store_listing, listing_of,
}
use certigo.Certs.Stream.Listing.Orders.{
  Agrees, equal-Agrees, followed_by-Agrees, gather-Agrees, if-Agrees,
}

-- The order in which a run of the program visits a map.
abbrev pub visiting : (Dict (Entry Certificate) → Dict (Entry Certificate)) → Libraries → Libraries
visiting v L = record L { visit = v }

module _ (L : Libraries) (v w : Dict (Entry Certificate) → Dict (Entry Certificate)) where
  key_block-visiting :
      (key : L.crypto.Key) (kind : KeyKind) (headers : Dict Bytes)
      → key_block (visiting v L) key kind headers ≡ key_block (visiting w L) key kind headers
  unfolding key_block
  key_block-visiting key (rsa_key raw) headers = refl
  key_block-visiting key (ecdsa_key none) headers = refl
  key_block-visiting key (ecdsa_key (some raw)) headers = refl
  key_block-visiting key unknown_key headers = refl

  key_to_pem-visiting :
      (key : Option L.crypto.Key) (headers : Dict Bytes)
      → key_to_pem (visiting v L) key headers ≡ key_to_pem (visiting w L) key headers
  unfolding key_to_pem
  key_to_pem-visiting (some key) headers = key_block-visiting key (L.key_kind key) headers
  key_to_pem-visiting none headers = refl

  pem_tokens-visiting :
      (fuel : ℕ) (bytes : Bytes)
      → pem_tokens (visiting v L) fuel bytes ≡ pem_tokens (visiting w L) fuel bytes
  unfolding pem_tokens
  pem_tokens-visiting zero bytes = refl
  pem_tokens-visiting (suc fuel) bytes = elim (Option-cases (L.pem_decode (take max_token bytes))) [
    | inl h ↦ rw (h, pem_tokens) refl
    | inr ((block, rest), h) ↦ rw (h, pem_tokens, pem_tokens-visiting fuel _) refl
  ]

  module _ (read : Bytes → Result Bytes Bytes) (headers : Dict Bytes) where
    key_listing-visiting :
        (named : Dict Bytes) (certs : List Certificate) (found : Result Bytes Block)
        → key_listing (visiting v L) read headers named certs found
          ≡ key_listing (visiting w L) read headers named certs found
    key_listing-visiting named certs (value block) = refl
    key_listing-visiting named certs (error e) = refl

    retrieved_listing-visiting :
        (alias : Bytes) (found : Retrieved L.crypto.Key Certificate)
        → retrieved_listing (visiting v L) read headers alias found
          ≡ retrieved_listing (visiting w L) read headers alias found
    retrieved_listing-visiting alias found = elim (Option-cases found.error) [
      | inr (e, h) ↦ rw (h, retrieved_listing) refl
      | inl h ↦
          rw (h, retrieved_listing)
            (ap (key_listing (visiting v L) read headers (named_headers headers alias) found.certs)
                (key_to_pem-visiting found.key (named_headers headers alias))
              ∙ key_listing-visiting (named_headers headers alias) found.certs _)
    ]

    alias_listing-visiting :
        (ks : KeyStore Certificate) (alias : Bytes)
        → alias_listing (visiting v L) read headers ks alias
          ≡ alias_listing (visiting w L) read headers ks alias
    alias_listing-visiting ks alias = elim (Result-cases (read alias)) [
      | inl (e, h) ↦ rw (h, alias_listing, asking) refl
      | inr (secret, h) ↦ rw (h, alias_listing, asking) (retrieved_listing-visiting alias _)
    ]

    module _ (hv : IsVisit v) (hw : IsVisit w) where
      asking-Agrees :
          (prompt : Bytes) (next next' : Bytes → Listing)
          → ((secret : Bytes) → Agrees (next secret) (next' secret))
          → Agrees
              (asking (visiting v L) read prompt next)
              (asking (visiting w L) read prompt next')
      asking-Agrees prompt next next' h = elim (Result-cases (read prompt)) [
        | inl (e, hr) ↦ rw (hr, asking) (equal-Agrees refl)
        | inr (secret, hr) ↦ rw (hr, asking) (h secret)
      ]

      key_store_listing-Agrees :
          (loaded : Outcome Types.Error (KeyStore Certificate))
          → Agrees
              (key_store_listing (visiting v L) read headers loaded)
              (key_store_listing (visiting w L) read headers loaded)
      key_store_listing-Agrees panic = equal-Agrees refl
      key_store_listing-Agrees (err e) = equal-Agrees refl
      key_store_listing-Agrees (ok ks) =
          followed_by-Agrees
            (gather-Agrees (cert_listing (visiting v L) read headers ks)
              (list_certs-Permᴰ v w hv hw ks))
            (subst
              (λ f.
                Agrees
                  (gather (alias_listing (visiting v L) read headers ks) (list_private_keys v ks))
                  (gather f (list_private_keys w ks)))
              (λ i alias. alias_listing-visiting ks alias i)
              (gather-Agrees (alias_listing (visiting v L) read headers ks)
                (list_private_keys-Permᴰ v w hv hw ks)))

      pub listing_of-Agrees :
          (format content : Bytes) (failure : Option Bytes)
          → Agrees
              (listing_of (visiting v L) read headers format content failure)
              (listing_of (visiting w L) read headers format content failure)
      unfolding listing_of
      listing_of-Agrees format content failure =
          if-Agrees (bytes_eq format (str "PEM")) _ _ _ _
            (equal-Agrees (
              ap (gather (token_listing (visiting v L) read headers))
                (pem_tokens-visiting (length content) content)))
            (if-Agrees (bytes_eq format (str "DER")) _ _ _ _ (equal-Agrees refl) (
              if-Agrees (bytes_eq format (str "PKCS12")) _ _ _ _ (equal-Agrees refl) (
                if-Agrees (bytes_eq format (str "JCEKS")) _ _ _ _
                  (asking-Agrees [] _ _ (λ secret. key_store_listing-Agrees _))
                  (equal-Agrees refl))))
