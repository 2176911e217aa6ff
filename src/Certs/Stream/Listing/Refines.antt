-- ===== src/Certs/Stream/Listing/Refines.antt =====
-- lib/certs.go: `readCertsFromStream` calls the callback on what the input holds.
use certigo.Base.{
  length, List, [], ◌∷◌, ◌≡◌, refl, sym, Option, Option-cases, Result-cases, inl, inr, Bytes, str,
  bytes_eq, bytes_eq_iff, Result, value, error, Outcome, ok, err, panic, M, none, some, subst, Bool,
  true, false, if◌then◌else◌,
}
use certigo.Base.Dict.{Dict}
use certigo.Jceks.Types.{KeyStore}
use certigo.Jceks.Types
use certigo.Jceks.Access.{Retrieved, get_cert, list_certs, list_private_keys}
use certigo.X509.{Certificate}
use certigo.Pkcs7.{SignedDataEnvelope}
use certigo.Certs.{Block, merged, pkcs7_to_pem, trim_space}
use certigo.Certs.Stream.{
  Libraries, Passwords, OnBlock, with_password, on_token, on_cert_alias, on_key_alias, on_envelopes,
  on_blocks, on_retrieved, on_key_block, on_key_store, read_all, read_pem, read_der, read_pkcs12,
  pem_tokens, read_jceks, read_format, read_certs_from_stream, stream_headers, encode_x509_to_pem,
  named_headers, envelopes_of,
}
use certigo.Certs.Stream.Listing.{
  Ending, failed, refused, crashed, Listing, ends, perform, asking, token_listing, envelope_listing,
  der_listing, pkcs12_blocks, cert_listing, key_listing, retrieved_listing, alias_listing,
  key_store_listing, whole, listing_of, finish,
}
use certigo.Certs.Stream.Listing.Delivers.{
  Delivers, ends-Delivers, one-Delivers, map-Delivers, then-Delivers, for_each-Delivers,
}

module _ (L : Libraries) {S : Type 0} (password : Passwords S) (callback : OnBlock S)
    (headers : Dict Bytes) where
  module _ (format : Bytes) where
    abbrev Gives : M S Bytes (Unit {0}) → Listing → Type 0
    Gives = Delivers password callback format

    fails-Gives : (ending : Ending) → Gives (finish password callback format ending) (ends ending)
    fails-Gives = ends-Delivers password callback format

    with_password-Gives :
        (prompt : Bytes) (next : Bytes → M S Bytes (Unit {0})) (listing : Bytes → Listing)
        → ((secret : Bytes) → Gives (next secret) (listing secret))
        → Gives (with_password password prompt next) (asking L password.read prompt listing)
    with_password-Gives prompt next listing h = elim (Result-cases (password.read prompt)) [
      | inl (e, hp) ↦ rw (hp, with_password, asking) (fails-Gives (refused e))
      | inr (secret, hp) ↦ rw (hp, with_password, asking) (h secret)
    ]

    read_all-Gives :
        (failure : Option Bytes) (next : M S Bytes (Unit {0})) (listing : Listing)
        → Gives next listing
        → Gives
            (read_all L password callback headers failure next)
            (whole L password.read headers failure listing)
    read_all-Gives none next listing h = h
    read_all-Gives (some e) next listing h = fails-Gives (failed _)

  on_token-Gives :
      (token : Bytes)
      → Gives
          (str "PEM")
          (on_token L password callback headers token)
          (token_listing L password.read headers token)
  on_token-Gives token = elim (Option-cases (L.pem_decode token)) [
    | inl h ↦ rw (h, on_token, token_listing) (fails-Gives (str "PEM") crashed)
    | inr ((block, rest), h) ↦
        rw (h, on_token, token_listing)
          (one-Delivers password callback (str "PEM") (merged block headers))
  ]

  on_envelopes-Gives :
      (content err0 : Bytes) (found : Option (Result Bytes (List SignedDataEnvelope)))
      → Gives
          (str "DER")
          (on_envelopes L password callback headers content err0 found)
          (envelope_listing L password.read headers err0 found)
  on_envelopes-Gives content err0 none = fails-Gives (str "DER") crashed
  on_envelopes-Gives content err0 (some (value envelopes)) =
      map-Delivers password callback (str "DER") (λ envelope. pkcs7_to_pem envelope headers)
        envelopes
  on_envelopes-Gives content err0 (some (error e)) = fails-Gives (str "DER") (failed _)

  read_der-Gives :
      (content : Bytes)
      → Gives
          (str "DER")
          (read_der L password callback headers content)
          (der_listing L password.read headers content)
  unfolding read_der
  read_der-Gives content = elim (Result-cases (L.parse_certificates content)) [
    | inl (e, h) ↦
        rw (h, read_der, der_listing)
          (on_envelopes-Gives content e (envelopes_of L.unmarshal content))
    | inr (certs, h) ↦
        rw (h, read_der, der_listing)
          (map-Delivers password callback (str "DER") (λ cert. encode_x509_to_pem cert headers)
            certs)
  ]

  on_blocks-Gives :
      (found : Result Bytes (List Block))
      → Gives
          (str "PKCS12")
          (on_blocks L password callback headers found)
          (pkcs12_blocks L password.read headers found)
  on_blocks-Gives (value (block ∷ blocks)) =
      map-Delivers password callback (str "PKCS12") (λ b. merged b headers) (block ∷ blocks)
  on_blocks-Gives (value []) = fails-Gives (str "PKCS12") (failed _)
  on_blocks-Gives (error e) = fails-Gives (str "PKCS12") (failed _)

  on_cert_alias-Gives :
      (ks : KeyStore Certificate) (alias : Bytes)
      → Gives
          (str "JCEKS")
          (on_cert_alias L password callback headers ks alias)
          (cert_listing L password.read headers ks alias)
  unfolding on_cert_alias
  on_cert_alias-Gives ks alias = elim (Option-cases (get_cert ks alias)) [
    | inl h ↦ rw (h, on_cert_alias, cert_listing) (fails-Gives (str "JCEKS") crashed)
    | inr (cert, h) ↦
        rw (h, on_cert_alias, cert_listing) (one-Delivers password callback (str "JCEKS") _)
  ]

  on_key_block-Gives :
      (alias : Bytes) (certs : List Certificate) (found : Result Bytes Block)
      → Gives
          (str "JCEKS")
          (on_key_block L password callback headers alias certs found)
          (key_listing L password.read headers (named_headers headers alias) certs found)
  on_key_block-Gives alias certs (error e) = fails-Gives (str "JCEKS") (failed _)
  on_key_block-Gives alias certs (value block) =
      then-Delivers password callback (str "JCEKS")
        (one-Delivers password callback (str "JCEKS") block)
        (map-Delivers password callback (str "JCEKS")
          (λ cert. encode_x509_to_pem cert (named_headers headers alias)) certs)

  on_retrieved-Gives :
      (alias : Bytes) (found : Retrieved L.crypto.Key Certificate)
      → Gives
          (str "JCEKS")
          (on_retrieved L password callback headers alias found)
          (retrieved_listing L password.read headers alias found)
  on_retrieved-Gives alias found = elim (Option-cases found.error) [
    | inl h ↦ rw h (on_key_block-Gives alias found.certs _)
    | inr (e, h) ↦ rw h (fails-Gives (str "JCEKS") (failed _))
  ]

  on_key_store-Gives :
      (loaded : Outcome Types.Error (KeyStore Certificate))
      → Gives
          (str "JCEKS")
          (on_key_store L password callback headers loaded)
          (key_store_listing L password.read headers loaded)
  unfolding on_key_store on_key_alias
  on_key_store-Gives panic = fails-Gives (str "JCEKS") crashed
  on_key_store-Gives (err e) = fails-Gives (str "JCEKS") (failed _)
  on_key_store-Gives (ok ks) =
      then-Delivers password callback (str "JCEKS")
        (for_each-Delivers password callback (str "JCEKS") _
          (cert_listing L password.read headers ks) (list_certs L.visit ks)
          (on_cert_alias-Gives ks))
        (for_each-Delivers password callback (str "JCEKS") _
          (alias_listing L password.read headers ks) (list_private_keys L.visit ks)
          (λ alias.
            with_password-Gives (str "JCEKS") alias _ _ (λ secret. on_retrieved-Gives alias _)))

  chosen-path :
      (b : Bool) (m k : M S Bytes (Unit {0})) (first more : Listing) (format label : Bytes)
      → (b ≡ true → format ≡ label)
      → Gives label m first
      → Gives format k more
      → Gives format (if b then m else k) (if b then first else more)
  chosen-path true m k first more format label named h g =
      subst (λ f. Gives f m first) (sym (named refl)) h
  chosen-path false m k first more format label named h g = g

  read_format-Gives :
      (format content : Bytes) (failure : Option Bytes)
      → Gives format
          (read_format L password callback headers format content failure)
          (listing_of L password.read headers format content failure)
  unfolding read_format listing_of read_pem read_pkcs12 read_jceks
  read_format-Gives format content failure =
      chosen-path (bytes_eq format (str "PEM")) _ _ _ _ format (str "PEM")
        ((bytes_eq_iff format (str "PEM")).0)
        (for_each-Delivers password callback (str "PEM") _ (token_listing L password.read headers)
          (pem_tokens L (length content) content) on_token-Gives)
        (chosen-path (bytes_eq format (str "DER")) _ _ _ _ format (str "DER")
          ((bytes_eq_iff format (str "DER")).0)
          (read_all-Gives (str "DER") failure _ _ (read_der-Gives content))
          (chosen-path (bytes_eq format (str "PKCS12")) _ _ _ _ format (str "PKCS12")
            ((bytes_eq_iff format (str "PKCS12")).0)
            (read_all-Gives (str "PKCS12") failure _ _
              (with_password-Gives (str "PKCS12") [] _ _ (λ secret. on_blocks-Gives _)))
            (chosen-path (bytes_eq format (str "JCEKS")) _ _ _ _ format (str "JCEKS")
              ((bytes_eq_iff format (str "JCEKS")).0)
              (with_password-Gives (str "JCEKS") [] _ _ (λ secret. on_key_store-Gives _))
              (fails-Gives format (failed _)))))

module _ (L : Libraries) {S : Type 0} (password : Passwords S) where
  -- Whatever the callback and its state: reading a stream is calling the callback on the blocks that
  -- the input holds, in order, until it fails, and then ending as the input does; what it holds
  -- depends on the input and the answers to the prompts alone, for every format.
  pub read_certs_from_stream-listing_of :
      (content : Bytes) (failure : Option Bytes) (filename format : Bytes) (callback : OnBlock S)
      → read_certs_from_stream L password content failure filename format callback
        ≡ perform password callback (trim_space format) (
            listing_of L password.read
              (stream_headers filename)
              (trim_space format)
              content
              failure)
  unfolding read_certs_from_stream
  read_certs_from_stream-listing_of content failure filename format callback =
      (read_format-Gives L password callback (stream_headers filename) (trim_space format) content
        failure).path
