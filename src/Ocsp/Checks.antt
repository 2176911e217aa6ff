-- ===== src/Ocsp/Checks.antt =====
-- lib/ocsp.go: what a check comes to with a staple, and where no certificate names a server.
use certigo.Base.{ℕ, List, [], ◌∷◌, ◌≡◌, Bytes, Result, Result-cases, inl, inr, value, error}
use certigo.X509.{Certificate}
use certigo.Ocsp.{Servers, Response, Failure, failed, try_ocsp, check_ocsp}

-- A parse, as the result of a check.
abbrev pub as_check : Result Bytes Response → Result Failure Response
as_check (value response) = value response
as_check (error e) = error (failed e)

module _ {W : Type 0} (H : Servers W) where
  -- A stapled response is parsed once, no server is asked, and its error is the result's.
  check_ocsp_stapled :
      (cert issuer : Certificate) (issuers : List Certificate) (b : ℕ) (staple : Bytes) (w : W)
      → check_ocsp H (cert ∷ issuer ∷ issuers) (b ∷ staple) w
        ≡ (as_check (H.parse_response (b ∷ staple)), w)
  unfolding check_ocsp try_ocsp
  check_ocsp_stapled cert issuer issuers b staple w =
      elim (Result-cases (H.parse_response (b ∷ staple))) [
        | inl (e, h) ↦ rw (h)
        | inr (r, h) ↦ rw (h)
      ]

  -- No server is named by any of the certificates, and requests can be made for all of them.
  abbrev pub NamesNoServer : Certificate → Certificate → Type 0
  NamesNoServer cert issuer =
      (issuer.ocsp_server ≡ [])
      × ((encoded : Bytes) × (H.create_request cert issuer ≡ value encoded))
