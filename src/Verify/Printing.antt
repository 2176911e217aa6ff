-- ===== src/Verify/Printing.antt =====
-- lib/verify.go: the text of a result without an error.
use certigo.Base.{ℕ, suc, List, [], ◌∷◌, ◌≡◌, refl, Option, Bytes, Outcome, ok, map, value}
use certigo.X509.{Certificate}
use certigo.Display.{Color}
use certigo.Verify.{
  Verifier, VerifyOptions, SimpleVerification, SimpleVerifyCert, simple_verify_cert, print_chains,
  print_certificate_chains, print_verify_result, verify_chain,
}
use certigo.Verify.Chains.{verify_chain-chains}
use certigo.Verify.Verified.{IsVerified}

abbrev pub IsFilled : {A : Type 0} → List (List A) → Type 0
IsFilled [] = Unit {0}
IsFilled ([] ∷ lists) = ⊥
IsFilled ((x ∷ xs) ∷ lists) = IsFilled lists

abbrev pub IsText : Outcome Bytes Bytes → Type 0
IsText o = (text : Bytes) × (o ≡ ok text)

IsFilled-map :
    {A B : Type 0} (f : A → B) (lists : List (List A))
    → IsFilled lists
    → IsFilled (map (map f) lists)
IsFilled-map f [] h = tt
IsFilled-map f ([] ∷ lists) h = h
IsFilled-map f ((x ∷ xs) ∷ lists) h = IsFilled-map f lists h

module _ (paint : Color → Bytes → Bytes) where
  print_chains-IsText :
      (i : ℕ) (chains : List (List SimpleVerifyCert))
      → IsFilled chains
      → IsText (print_chains paint i chains)
  unfolding print_chains
  print_chains-IsText i [] h = (_, refl)
  print_chains-IsText i ([] ∷ chains) h = absurd h
  print_chains-IsText i ((cert ∷ certs) ∷ chains) h =
      let (text, e) = print_chains-IsText (suc i) chains h in rw e (_, refl)

  -- A result without an error is told in words, where none of its chains is empty.
  pub print_verify_result-IsText :
      (result : SimpleVerification)
      → result.error ≡ []
      → IsFilled result.chains
      → IsText (print_verify_result paint result)
  unfolding print_verify_result print_certificate_chains
  print_verify_result-IsText result he hc =
      let (text, e) = print_chains-IsText 0 result.chains hc in
      rw (he, e, print_certificate_chains) (_, refl)

module _ {W : Type 0} (V : Verifier W) where
  pub verify_chain-IsFilled :
      ((cert : Certificate) (options : VerifyOptions) (chains : List (List Certificate))
        → V.verify cert options ≡ value chains
        → IsFilled chains)
      → (certs : List Certificate) (staple : Option Bytes) (dns_name ca_path : Bytes) (w : W)
      → IsVerified V certs dns_name ca_path
      → (result : SimpleVerification) × ((verify_chain V certs staple dns_name ca_path w).0
          ≡ ok result)
        × (result.error ≡ [])
        × IsFilled result.chains
  verify_chain-IsFilled filled [] staple dns_name ca_path w h = absurd h
  verify_chain-IsFilled filled (cert ∷ others) staple dns_name ca_path w (roots, chains, hb, hv) =
      let (result, (e, (he, hc))) =
        verify_chain-chains V cert others staple dns_name ca_path w hb hv in
      (result, e, he, rw hc (IsFilled-map (simple_verify_cert V) chains (filled _ _ _ hv)))
