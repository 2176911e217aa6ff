-- ===== src/Tests/Verify.antt =====
-- Runs of the models of lib/ocsp.go and lib/verify.go.
use certigo.Base.{ℕ, suc, [], ◌∷◌, ◌≡◌, refl, none, str, value, error, ok, map}
use certigo.X509.{Certificate}
use certigo.Ocsp.{Servers}
use certigo.Verify.{Verifier, ca_bundle, SimpleVerification, simple_verify_cert, verify_chain}
use certigo.Verify.Chains.{verify_chain-chains}
use certigo.Tests.Certs.{certificate, libraries}

-- The state counts the requests.
abbrev servers : Servers ℕ
servers = record {
  create_request = λ cert issuer. value cert.raw;
  base64 = λ bytes. bytes;
  new_request_error = λ method url. none;
  send = λ request n. (error (str "no route"), suc n);
  parse_response = λ bytes. error (str "sequence truncated");
}

abbrev leaf : Certificate
leaf = certificate (str "leaf")

abbrev ca : Certificate
ca = certificate (str "ca")

abbrev pub verifier : Verifier ℕ
verifier = record {
  libraries = libraries;
  servers = servers;
  open_file = λ name. error (str "permission denied");
  verify = λ cert options. value ((cert ∷ options.intermediates) ∷ []);
  check_signature = λ cert parent. none;
  encode_to_memory = λ block. block.bytes;
}

verify_chain-chains_example :
    (result : SimpleVerification) × (((verify_chain verifier
          (leaf ∷ ca ∷ [])
          none
          (str "example.com")
          []
          0).0
        ≡ ok result)
      × ((result.error ≡ [])
          × (result.chains ≡ map (map (simple_verify_cert verifier)) ((leaf ∷ ca ∷ []) ∷ []))))
unfolding ca_bundle
verify_chain-chains_example =
    verify_chain-chains verifier leaf (ca ∷ []) none (str "example.com") [] 0 refl refl
