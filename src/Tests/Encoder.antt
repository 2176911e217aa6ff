-- ===== src/Tests/Encoder.antt =====
-- Runs of the model of lib/encoder.go.
use certigo.Base.{[], ◌∷◌, ◌≡◌, ◌↔◌, ◌%◌, refl, ok, str, arith}
use certigo.Encoder.{key_usage, key_usage_loop, lookup_code, hexify}
use certigo.Encoder.Usages.{usage_of, usage_of-key_usage}
use certigo.Encoder.Hex.{unhexify, unhexify-hexify}
use certigo.Encoder.Warnings.{cert_warnings}
use certigo.Encoder.Warnings.Clean.{IsClean, cert_warnings-IsClean}
use certigo.Base.Dict.{Dict}
use certigo.X509.{Name}
use certigo.Oids.{Json, name_object}
use certigo.Oids.Objects.{name_object_total}
use certigo.Tests.Certs.{certificate}

usage_of-key_usage_example : usage_of (key_usage 0x21) ≡ 0x21 % 512
usage_of-key_usage_example = usage_of-key_usage 0x21

unhexify-hexify_example : unhexify (hexify (0xA0 ∷ 0x1F ∷ [])) ≡ 0xA0 ∷ 0x1F ∷ []
unhexify-hexify_example = unhexify-hexify (0xA0 ∷ 0x1F ∷ []) (omega arith, (omega arith, tt))

cert_warnings-IsClean_example :
    (cert_warnings (certificate (str "leaf")) [] ≡ []) ↔ IsClean (certificate (str "leaf")) []
cert_warnings-IsClean_example = cert_warnings-IsClean (certificate (str "leaf")) []

two_usages : key_usage 0x21 ≡ str "Digital Signature" ∷ str "Cert Sign" ∷ []
unfolding key_usage key_usage_loop lookup_code
two_usages = refl

abbrev name : Name
name = record {
  common_name = str "leaf";
  names =
      record { oid = 2 ∷ 5 ∷ 4 ∷ 3 ∷ []; text = str "leaf" }
      ∷ record { oid = 2 ∷ 5 ∷ 4 ∷ 11 ∷ []; text = str "A" }
      ∷ record { oid = 2 ∷ 5 ∷ 4 ∷ 11 ∷ []; text = str "B" }
      ∷ [];
}

name_object_total_example : (out : Dict Json) × (name_object name (1 ∷ 2 ∷ []) ≡ ok out)
name_object_total_example = name_object_total name (1 ∷ 2 ∷ [])
