-- ===== src/Verify/Chains.antt =====
-- lib/verify.go: the chains that `VerifyChain` tells.
use certigo.Base.{
  List, [], ◌∷◌, ◌++◌, ◌≡◌, refl, ap, ◌∙◌, Option, Bytes, Result, value, error, ok, map, append-nil,
  append_assoc, sym,
}
use certigo.X509.{Certificate}
use certigo.Ocsp.{Response, Failure, skipped_revocation_check, failed, check_ocsp}
use certigo.Verify.{
  Verifier, SimpleVerification, ca_bundle, simple_verify_cert, note_ocsp, add_chain, check_chains,
  verify_chain, verify_with, unverified, staple_bytes,
}

note_ocsp-chains :
    (r : Result Failure Response) (result : SimpleVerification)
    → (note_ocsp r result).chains ≡ result.chains
note_ocsp-chains (value status) result = refl
note_ocsp-chains (error skipped_revocation_check) result = refl
note_ocsp-chains (error (failed e)) result = refl

note_ocsp-error :
    (r : Result Failure Response) (result : SimpleVerification)
    → (note_ocsp r result).error ≡ result.error
note_ocsp-error (value status) result = refl
note_ocsp-error (error skipped_revocation_check) result = refl
note_ocsp-error (error (failed e)) result = refl

module _ {W : Type 0} (V : Verifier W) where
  check_chains-chains :
      (chains : List (List Certificate)) (staple : Bytes) (result : SimpleVerification) (w : W)
      → (check_chains V chains staple result w).0.chains
        ≡ result.chains ++ map (map (simple_verify_cert V)) chains
  unfolding check_chains
  check_chains-chains [] staple result w = sym (append-nil result.chains)
  check_chains-chains (chain ∷ chains) staple result w =
      let r = check_ocsp V.servers chain staple w in
      check_chains-chains chains staple (add_chain V chain (note_ocsp r.0 result)) r.1
      ∙ ap
          (λ cs.
            (cs ++ map (simple_verify_cert V) chain ∷ [])
            ++ map (map (simple_verify_cert V)) chains)
          (note_ocsp-chains r.0 result)
      ∙ append_assoc result.chains (map (simple_verify_cert V) chain ∷ []) _

  check_chains-error :
      (chains : List (List Certificate)) (staple : Bytes) (result : SimpleVerification) (w : W)
      → (check_chains V chains staple result w).0.error ≡ result.error
  unfolding check_chains
  check_chains-error [] staple result w = refl
  check_chains-error (chain ∷ chains) staple result w =
      let r = check_ocsp V.servers chain staple w in
      check_chains-error chains staple (add_chain V chain (note_ocsp r.0 result)) r.1
      ∙ note_ocsp-error r.0 result

  -- Where the bundle is read and the first certificate verifies against it, with the others as
  -- intermediates, the result has no error and tells the chains found, each certificate in its
  -- place, whatever the checks of the revocation status come to.
  pub verify_chain-chains :
      (cert : Certificate) (others : List Certificate) (staple : Option Bytes)
      (dns_name ca_path : Bytes) (w : W) {roots : Option (List Certificate)}
      {chains : List (List Certificate)}
      → ca_bundle V ca_path ≡ ok roots
      → V.verify cert (record { dns_name = dns_name; roots = roots; intermediates = others })
        ≡ value chains
      → (result : SimpleVerification) × (((verify_chain V
              (cert ∷ others)
              staple
              dns_name
              ca_path
              w).0
            ≡ ok result)
          × ((result.error ≡ []) × (result.chains ≡ map (map (simple_verify_cert V)) chains)))
  unfolding verify_chain
  verify_chain-chains cert others staple dns_name ca_path w {roots} {chains} hb hv = (
    (check_chains V chains (staple_bytes staple) (unverified staple) w).0,
    (
      rw (hb, verify_chain, verify_with, hv),
      (
        check_chains-error chains (staple_bytes staple) (unverified staple) w,
        check_chains-chains chains (staple_bytes staple) (unverified staple) w,
      ),
    ),
  )
