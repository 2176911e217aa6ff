-- ===== src/Verify/Verified.antt =====
-- lib/verify.go: what a result without an error stands for.
use certigo.Base.{
  List, [], ◌∷◌, ◌≡◌, ◌≢◌, ap, ◌∙◌, Option, Bytes, value, error, Outcome, ok, err, panic,
  Outcome-cases, Result-cases, inl, inr,
}
use certigo.X509.{Certificate}
use certigo.Verify.{
  Verifier, Bundle, VerifyOptions, SimpleVerification, ca_bundle, bundle_read, verify_chain,
  verify_with,
}

module _ {W : Type 0} (V : Verifier W) where
  -- The first certificate verifies for the name, with the others as intermediates, against the roots
  -- of the bundle.
  abbrev pub IsVerified : List Certificate → Bytes → Bytes → Type 0
  IsVerified [] dns_name ca_path = ⊥
  IsVerified (cert ∷ others) dns_name ca_path =
      (roots : Option (List Certificate)) × (chains : List (List Certificate)) × (ca_bundle V
          ca_path
        ≡ ok roots)
      × (V.verify cert (record { dns_name = dns_name; roots = roots; intermediates = others })
          ≡ value chains)

  abbrev error_of : Outcome Bytes SimpleVerification → Bytes
  error_of (ok result) = result.error
  error_of (err e) = []
  error_of panic = []

  bundle_read-err :
      (r : Outcome Bytes (Unit {0}) × Bundle) (e : Bytes) → bundle_read r ≡ err e → e ≢ []
  bundle_read-err (ok _, bundle) e h = λ p. cc
  bundle_read-err (err f, bundle) e h = λ p. cc
  bundle_read-err (panic, bundle) e h = λ p. cc

  -- A bundle that cannot be read is told of in words.
  ca_bundle-err : (ca_path e : Bytes) → ca_bundle V ca_path ≡ err e → e ≢ []
  unfolding ca_bundle
  ca_bundle-err [] e = λ h p. cc
  ca_bundle-err (b ∷ bs) e = elim (Result-cases (V.open_file (b ∷ bs))) [
    | inl (f, hf) ↦ rw (ca_bundle, hf) (λ h p. cc)
    | inr (content, hc) ↦ rw (ca_bundle, hc) (bundle_read-err _ e)
  ]

  pub verify_chain-IsVerified :
      ((cert : Certificate) (options : VerifyOptions) (e : Bytes)
        → V.verify cert options ≡ error e
        → e ≢ [])
      → (certs : List Certificate) (staple : Option Bytes) (dns_name ca_path : Bytes) (w : W)
        {result : SimpleVerification}
      → (verify_chain V certs staple dns_name ca_path w).0 ≡ ok result
      → result.error ≡ []
      → IsVerified certs dns_name ca_path
  unfolding verify_chain
  verify_chain-IsVerified worded [] staple dns_name ca_path w = λ h he. cc
  verify_chain-IsVerified worded (cert ∷ others) staple dns_name ca_path w =
      elim (Outcome-cases (ca_bundle V ca_path)) [
        | inl hb ↦ rw (hb, verify_chain) (λ h he. cc)
        | inr (inl (e, hb)) ↦
            rw (hb, verify_chain) (λ h he. absurd (ca_bundle-err ca_path e hb (ap error_of h ∙ he)))
        | inr (inr (roots, hb)) ↦
            elim (Result-cases (
              V.verify cert
                (record { dns_name = dns_name; roots = roots; intermediates = others }))) [
                  | inl (e, hv) ↦
                      rw (hb, verify_chain, verify_with, hv)
                        (λ h he. absurd (worded _ _ e hv (ap error_of h ∙ he)))
                  | inr (chains, hv) ↦ λ h he. (roots, chains, hb, hv)
                ]
      ]
