-- ===== src/Certs/Stream/Keeps.antt =====
-- lib/certs.go: the reading of a stream changes the caller's state by calls of its callback alone.
use certigo.Base.{
  ◌≡◌, length, ◌++◌, List, [], ◌∷◌, Option, none, some, Option-cases, Result-cases, inl, inr, Bytes,
  Result, value, error, Outcome, ok, err, panic, M, continue, ◌>>◌, str, bytes_eq, Bool, true,
  false, if◌then◌else◌,
}
use certigo.Base.Dict.{Dict}
use certigo.Jceks.Types.{KeyStore}
use certigo.Jceks.Types
use certigo.Jceks.Access.{Retrieved, get_cert, list_certs, list_private_keys}
use certigo.X509.{Certificate}
use certigo.Pkcs7.{Error, SignedDataEnvelope, extract_certificates}
use certigo.Certs.{Block, for_each, trim_space}
use certigo.Certs.Stream.{
  Libraries, Passwords, OnBlock, OnCertificate, on_cert_alias, on_key_alias, on_retrieved,
  on_key_block, on_token, on_key_store, with_password, on_envelopes, on_blocks, pem_tokens,
  envelopes_of, pem_to_x509, certificate_of, first_of, on_envelope, read_all, read_pem, read_der,
  read_pkcs12, read_jceks, read_format, read_certs_from_stream, stream_headers,
}

module _ {S : Type 0} (P : S → Type 0) where
  -- The action leads from states of the predicate to such states, whatever it ends in.
  pub record Keeps (m : M S Bytes (Unit {0})) : Type 0 where
    pub kept : (s : S) → P s → P (m s).1

  continue-kept :
      (k : M S Bytes (Unit {0})) (r : Outcome Bytes (Unit {0}) × S)
      → Keeps k
      → P r.1
      → P (continue (λ _. k) r).1
  continue-kept k (ok _, s) hk h = hk.kept s h
  continue-kept k (err e, s) hk h = h
  continue-kept k (panic, s) hk h = h

  then-Keeps : (m k : M S Bytes (Unit {0})) → Keeps m → Keeps k → Keeps (m >> k)
  then-Keeps m k hm hk = record { kept = λ s h. continue-kept k (m s) hk (hm.kept s h) }

  ends-Keeps : (o : Outcome Bytes (Unit {0})) → Keeps (λ s. (o, s))
  ends-Keeps o = record { kept = λ s h. h }

  if-Keeps :
      (b : Bool) (m k : M S Bytes (Unit {0})) → Keeps m → Keeps k → Keeps (if b then m else k)
  if-Keeps true m k hm hk = hm
  if-Keeps false m k hm hk = hk

  for_each-Keeps :
      {A : Type 0} (f : A → M S Bytes (Unit {0})) (items : List A)
      → ((a : A) → Keeps (f a))
      → Keeps (for_each f items)
  unfolding for_each
  for_each-Keeps f [] h = ends-Keeps (ok tt)
  for_each-Keeps f (a ∷ rest) h = then-Keeps (f a) (for_each f rest) (h a) (for_each-Keeps f rest h)

  module _ (L : Libraries) where
    module _ (password : Passwords S) (callback : OnBlock S) (headers : Dict Bytes)
        (gives_up : (prompt e : Bytes)
          → password.read prompt ≡ error e
          → (s : S) → P s
          → P (password.give_up e s))
        (calls : (block : Block) (format : Bytes) → Keeps (callback block format)) where
      with_password-Keeps :
          (prompt : Bytes) (next : Bytes → M S Bytes (Unit {0}))
          → ((secret : Bytes) → Keeps (next secret))
          → Keeps (with_password password prompt next)
      with_password-Keeps prompt next h = record {
        kept = λ s k. elim (Result-cases (password.read prompt)) [
          | inl (e, hp) ↦ rw (hp, with_password) (gives_up prompt e hp s k)
          | inr (secret, hp) ↦ rw (hp, with_password) ((h secret).kept s k)
        ];
      }

      on_token-Keeps : (token : Bytes) → Keeps (on_token L password callback headers token)
      on_token-Keeps token = elim (Option-cases (L.pem_decode token)) [
        | inl e ↦ rw (e, on_token) (ends-Keeps panic)
        | inr (b, e) ↦ rw (e, on_token) (calls _ _)
      ]

      read_all-Keeps :
          (failure : Option Bytes) (next : M S Bytes (Unit {0}))
          → Keeps next
          → Keeps (read_all L password callback headers failure next)
      read_all-Keeps none next h = h
      read_all-Keeps (some e) next h = ends-Keeps (err _)

      on_envelopes-Keeps :
          (content err0 : Bytes) (found : Option (Result Bytes (List SignedDataEnvelope)))
          → Keeps (on_envelopes L password callback headers content err0 found)
      on_envelopes-Keeps content err0 none = ends-Keeps panic
      on_envelopes-Keeps content err0 (some (value blocks)) =
          for_each-Keeps _ blocks (λ block. calls _ _)
      on_envelopes-Keeps content err0 (some (error e)) = ends-Keeps (err _)

      read_der-Keeps : (content : Bytes) → Keeps (read_der L password callback headers content)
      unfolding read_der
      read_der-Keeps content = elim (Result-cases (L.parse_certificates content)) [
        | inr (certs, e) ↦ rw (e, read_der) (for_each-Keeps _ certs (λ cert. calls _ _))
        | inl (err0, e) ↦
            rw (e, read_der) (on_envelopes-Keeps content err0 (envelopes_of L.unmarshal content))
      ]

      on_blocks-Keeps :
          (found : Result Bytes (List Block)) → Keeps (on_blocks L password callback headers found)
      on_blocks-Keeps (value (block ∷ blocks)) = for_each-Keeps _ (block ∷ blocks) (λ b. calls _ _)
      on_blocks-Keeps (value []) = ends-Keeps (err _)
      on_blocks-Keeps (error e) = ends-Keeps (err _)

      on_cert_alias-Keeps :
          (ks : KeyStore Certificate) (alias : Bytes)
          → Keeps (on_cert_alias L password callback headers ks alias)
      unfolding on_cert_alias
      on_cert_alias-Keeps ks alias = elim (Option-cases (get_cert ks alias)) [
        | inl e ↦ rw (e, on_cert_alias) (ends-Keeps panic)
        | inr (cert, e) ↦ rw (e, on_cert_alias) (calls _ _)
      ]

      on_key_block-Keeps :
          (alias : Bytes) (certs : List Certificate) (found : Result Bytes Block)
          → Keeps (on_key_block L password callback headers alias certs found)
      on_key_block-Keeps alias certs (error e) = ends-Keeps (err _)
      on_key_block-Keeps alias certs (value block) =
          then-Keeps _ _ (calls block _) (for_each-Keeps _ certs (λ cert. calls _ _))

      on_retrieved-Keeps :
          (alias : Bytes) (found : Retrieved L.crypto.Key Certificate)
          → Keeps (on_retrieved L password callback headers alias found)
      on_retrieved-Keeps alias found = elim (Option-cases found.error) [
        | inr (e, h) ↦ rw h (ends-Keeps (err _))
        | inl h ↦ rw h (on_key_block-Keeps alias found.certs _)
      ]

      on_key_store-Keeps :
          (loaded : Outcome Types.Error (KeyStore Certificate))
          → Keeps (on_key_store L password callback headers loaded)
      unfolding on_key_store on_key_alias
      on_key_store-Keeps panic = ends-Keeps panic
      on_key_store-Keeps (err e) = ends-Keeps (err _)
      on_key_store-Keeps (ok ks) =
          then-Keeps _ _ (for_each-Keeps _ (list_certs L.visit ks) (on_cert_alias-Keeps ks)) (
            for_each-Keeps _ (list_private_keys L.visit ks)
              (λ alias. with_password-Keeps alias _ (λ secret. on_retrieved-Keeps alias _)))

      read_format-Keeps :
          (format content : Bytes) (failure : Option Bytes)
          → Keeps (read_format L password callback headers format content failure)
      unfolding read_format read_pem read_pkcs12 read_jceks
      read_format-Keeps format content failure =
          if-Keeps (bytes_eq format (str "PEM")) _ _
            (for_each-Keeps _ (pem_tokens L (length content) content) on_token-Keeps)
            (if-Keeps (bytes_eq format (str "DER")) _ _
              (read_all-Keeps failure _ (read_der-Keeps content))
              (if-Keeps (bytes_eq format (str "PKCS12")) _ _
                (read_all-Keeps failure _ (with_password-Keeps [] _ (λ secret. on_blocks-Keeps _)))
                (if-Keeps (bytes_eq format (str "JCEKS")) _ _
                  (with_password-Keeps [] _ (λ secret. on_key_store-Keeps _))
                  (ends-Keeps (err (str "unknown file type '" ++ (format ++ str "'\n")))))))

    pub read_certs_from_stream-Keeps :
        (password : Passwords S) (callback : OnBlock S)
        → ((prompt e : Bytes)
            → password.read prompt ≡ error e
            → (s : S) → P s
            → P (password.give_up e s))
        → ((block : Block) (format : Bytes) → Keeps (callback block format))
        → (content : Bytes) (failure : Option Bytes) (filename format : Bytes)
        → Keeps (read_certs_from_stream L password content failure filename format callback)
    unfolding read_certs_from_stream
    read_certs_from_stream-Keeps password callback gives_up calls content failure filename format =
        read_format-Keeps password callback (stream_headers filename) gives_up calls
          (trim_space format) content failure

    module _ (warn : M S Bytes (Unit {0})) (callback : OnCertificate S) (warns : Keeps warn)
        (calls : (cert : Option Certificate) (format : Bytes) (e : Option Bytes)
          → Keeps (callback cert format e)) where
      certificate_of-Keeps :
          (format : Bytes) (found : Result Bytes Certificate)
          → Keeps (certificate_of L warn callback format found)
      certificate_of-Keeps format (value cert) = calls _ _ _
      certificate_of-Keeps format (error e) = calls _ _ _

      first_of-Keeps :
          (format : Bytes) (certs : List Certificate)
          → Keeps (first_of L warn callback format certs)
      first_of-Keeps format [] = ends-Keeps (ok tt)
      first_of-Keeps format (cert ∷ certs) = calls _ _ _

      on_envelope-Keeps :
          (format : Bytes) (found : Option (Result Error (List Certificate)))
          → Keeps (on_envelope L warn callback format found)
      on_envelope-Keeps format none = ends-Keeps panic
      on_envelope-Keeps format (some (value certs)) = first_of-Keeps format certs
      on_envelope-Keeps format (some (error e)) = calls _ _ _

      pub pem_to_x509-Keeps :
          (block : Block) (format : Bytes) → Keeps (pem_to_x509 L warn callback block format)
      unfolding pem_to_x509
      pem_to_x509-Keeps block format =
          if-Keeps (bytes_eq block.kind (str "CERTIFICATE")) _ _
            (certificate_of-Keeps format (L.parse_certificate block.bytes))
            (if-Keeps (bytes_eq block.kind (str "PKCS7")) _ _
              (on_envelope-Keeps format
                (extract_certificates L.unmarshal L.parse_certificate block.bytes))
              (if-Keeps (bytes_eq block.kind (str "CERTIFICATE REQUEST")) _ _ warns
                (ends-Keeps (ok tt))))
