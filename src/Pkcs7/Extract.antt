-- ===== src/Pkcs7/Extract.antt =====
-- pkcs7/pkcs7.go: the certificates that `ExtractCertificates` gives.
use certigo.Base.{
  List, [], ◌∷◌, ◌++◌, ◌≡◌, refl, sym, ap, ◌∙◌, none, some, Bytes, Result, Result-cases, value,
  error, inl, inr, append-nil, append_assoc,
}
use certigo.Pkcs7.{
  SignedDataEnvelope, Error, library, Parsed, parse_signed_data, extract_block, extract_blocks,
  extract_certificates,
}
use certigo.Pkcs7.Blocks.{Unmarshal}

-- The raw certificates of the blocks, in order.
unfoldable pub raw_certificates : List SignedDataEnvelope → List Bytes
raw_certificates [] = []
raw_certificates (e ∷ es) = e.certificates ++ raw_certificates es

module _ {Cert : Type 0} (parse_certificate : Bytes → Result Bytes Cert) where
  -- Each parses to the certificate at its place.
  abbrev pub ParseTo : List Bytes → List Cert → Type 0
  ParseTo [] [] = Unit {0}
  ParseTo (r ∷ rs) (c ∷ cs) = (parse_certificate r ≡ value c) × ParseTo rs cs
  ParseTo [] (c ∷ cs) = ⊥
  ParseTo (r ∷ rs) [] = ⊥

  abbrev next :
      Result Error (List Cert) → (List Cert → Result Error (List Cert)) → Result Error (List Cert)
  next (error e) f = error e
  next (value certs) f = f certs

  extract_block-append :
      (raws more : List Bytes) (acc : List Cert)
      → extract_block parse_certificate (raws ++ more) acc
        ≡ next (extract_block parse_certificate raws acc) (extract_block parse_certificate more)
  unfolding extract_block
  extract_block-append [] more acc = refl
  extract_block-append (r ∷ rs) more acc = elim (Result-cases (parse_certificate r)) [
    | inl (m, e) ↦ rw (e, extract_block)
    | inr (c, e) ↦ rw (e, extract_block) (extract_block-append rs more (acc ++ c ∷ []))
  ]

  -- The loop over the blocks and the loop inside it are one loop over all certificates.
  extract_blocks-eq :
      (es : List SignedDataEnvelope) (acc : List Cert)
      → extract_blocks parse_certificate es acc
        ≡ extract_block parse_certificate (raw_certificates es) acc
  unfolding extract_blocks raw_certificates
  extract_blocks-eq [] acc = unfold extract_block in refl
  extract_blocks-eq (b ∷ bs) acc =
      rw extract_block-append
        (step (extract_block parse_certificate b.certificates acc) (extract_blocks-eq bs) refl)
    where
      step :
          (r : Result Error (List Cert))
          → ((c : List Cert)
              → extract_blocks parse_certificate bs c
                ≡ extract_block parse_certificate (raw_certificates bs) c)
          → extract_block parse_certificate b.certificates acc ≡ r
          → extract_blocks parse_certificate (b ∷ bs) acc
            ≡ next r (extract_block parse_certificate (raw_certificates bs))
      step (error e) ih h = rw (h, extract_blocks)
      step (value c) ih h = rw (h, extract_blocks) (ih c)

  extract_block-ParseTo :
      (rs more : List Bytes) (cs acc : List Cert)
      → ParseTo rs cs
      → extract_block parse_certificate (rs ++ more) acc
        ≡ extract_block parse_certificate more (acc ++ cs)
  unfolding extract_block
  extract_block-ParseTo [] more [] acc h = rw append-nil
  extract_block-ParseTo [] more (c ∷ cs) acc h = absurd h
  extract_block-ParseTo (r ∷ rs) more [] acc h = absurd h
  extract_block-ParseTo (r ∷ rs) more (c ∷ cs) acc (h, hs) =
      rw (h, extract_block)
        (extract_block-ParseTo rs more cs (acc ++ c ∷ []) hs
          ∙ ap (extract_block parse_certificate more) (append_assoc acc (c ∷ []) cs))

  extract_block_stops :
      (front back : List Bytes) (raw : Bytes) (certs acc : List Cert) {message : Bytes}
      → ParseTo front certs
      → parse_certificate raw ≡ error message
      → extract_block parse_certificate (front ++ raw ∷ back) acc ≡ error (library message)
  extract_block_stops front back raw certs acc hp he =
      extract_block-ParseTo front (raw ∷ back) certs acc hp
      ∙ unfold extract_block in rw (he, extract_block)

  module _ (unmarshal : Unmarshal) (input : Bytes) {p : Parsed} where
    extract_certificates-parsed :
        parse_signed_data unmarshal input ≡ some p
        → p.failure ≡ none
        → extract_certificates unmarshal parse_certificate input
          ≡ some (extract_block parse_certificate (raw_certificates p.blocks) [])
    unfolding extract_certificates
    extract_certificates-parsed parsed hf =
        rw (parsed, extract_certificates, hf, extract_blocks-eq p.blocks [])

    -- Where the blocks parse, and every certificate of every block does, they are given in order.
    pub extract_certificates-ParseTo :
        (certs : List Cert)
        → parse_signed_data unmarshal input ≡ some p
        → p.failure ≡ none
        → ParseTo (raw_certificates p.blocks) certs
        → extract_certificates unmarshal parse_certificate input ≡ some (value certs)
    extract_certificates-ParseTo certs parsed hf hp =
        extract_certificates-parsed parsed hf
        ∙ ap (λ rs. some (extract_block parse_certificate rs []))
            (sym (append-nil (raw_certificates p.blocks)))
        ∙ ap some (extract_block-ParseTo (raw_certificates p.blocks) [] certs [] hp)
        ∙ unfold extract_block in refl

    -- At the first certificate that does not parse its error is the result, and no certificate is
    -- given.
    extract_certificates_stops :
        (front back : List Bytes) (raw : Bytes) (certs : List Cert) {message : Bytes}
        → parse_signed_data unmarshal input ≡ some p
        → p.failure ≡ none
        → raw_certificates p.blocks ≡ front ++ raw ∷ back
        → ParseTo front certs
        → parse_certificate raw ≡ error message
        → extract_certificates unmarshal parse_certificate input ≡ some (error (library message))
    extract_certificates_stops front back raw certs parsed hf hr hp he =
        extract_certificates-parsed parsed hf
        ∙ ap (λ rs. some (extract_block parse_certificate rs [])) hr
        ∙ ap some (extract_block_stops front back raw certs [] hp he)
