-- ===== src/Tests/Pkcs7.antt =====
-- Runs of the model of pkcs7/, over a toy parser: each byte is an envelope.
use certigo.Base.{
  ℕ, List, [], ◌∷◌, ◌++◌, ◌≡◌, ◌<◌, refl, ap, some, Bytes, str, length, Result, value, error, none,
  arith, if◌then◌else◌, ◌==◌, bytes_eq,
}
use certigo.Base.Int.{pos}
use certigo.Pkcs7.{
  SignedDataEnvelope, Parsed, signed_data_identifier, parse_block, parse_blocks, parse_signed_data,
  extract_certificates,
}
use certigo.Pkcs7.Blocks.{Unmarshal, Splits, Accounts, parse_signed_data-Accounts}
use certigo.Pkcs7.Extract.{raw_certificates, extract_certificates-ParseTo}

abbrev envelope : ℕ → SignedDataEnvelope
envelope b = record {
  raw = b ∷ [];
  oid = signed_data_identifier;
  version = pos 1;
  certificates = (b ∷ []) ∷ (b ∷ b ∷ []) ∷ [];
}

abbrev unmarshal : Unmarshal
unmarshal [] = error (str "sequence truncated")
unmarshal (b ∷ rest) = value (envelope b, rest)

-- The bytes of an answer, and how many the envelope has.
abbrev answer_bytes : Result Bytes (SignedDataEnvelope × Bytes) → Bytes
answer_bytes (value (e, rest)) = e.raw ++ rest
answer_bytes (error message) = []

abbrev answer_length : Result Bytes (SignedDataEnvelope × Bytes) → ℕ
answer_length (value (e, rest)) = length e.raw
answer_length (error message) = 1

unmarshal_input :
    (bytes : Bytes) (e : SignedDataEnvelope) (rest : Bytes)
    → unmarshal bytes ≡ value (e, rest)
    → bytes ≡ e.raw ++ rest
unmarshal_input [] e rest h = cc
unmarshal_input (b ∷ bs) e rest h = ap answer_bytes h

unmarshal_raw :
    (bytes : Bytes) (e : SignedDataEnvelope) (rest : Bytes)
    → unmarshal bytes ≡ value (e, rest)
    → 0 < length e.raw
unmarshal_raw [] e rest h = cc
unmarshal_raw (b ∷ bs) e rest h = omega (arith, ap answer_length h)

unmarshal-Splits : Splits unmarshal
unmarshal-Splits = record { input_is = unmarshal_input; raw-ne-nil = unmarshal_raw }

abbrev parse_certificate : Bytes → Result Bytes Bytes
parse_certificate [] = error (str "empty")
parse_certificate (b ∷ []) = value (b ∷ [])
parse_certificate (b ∷ c ∷ cs) = if b == 9 then error (str "malformed") else value (c ∷ cs)

parse_signed_data-Accounts_example :
    (p : Parsed) × (parse_signed_data unmarshal (5 ∷ 6 ∷ []) ≡ some p)
    × Accounts unmarshal (5 ∷ 6 ∷ []) p
parse_signed_data-Accounts_example =
    parse_signed_data-Accounts unmarshal unmarshal-Splits (5 ∷ 6 ∷ [])

abbrev parsed : List SignedDataEnvelope → Parsed
parsed blocks = record { blocks = blocks; failure = none }

two_blocks : parse_signed_data unmarshal (5 ∷ 6 ∷ []) ≡ some (parsed (envelope 5 ∷ envelope 6 ∷ []))
unfolding parse_signed_data parse_blocks parse_block bytes_eq
two_blocks = refl

bad_block : parse_signed_data unmarshal (5 ∷ 9 ∷ []) ≡ some (parsed (envelope 5 ∷ envelope 9 ∷ []))
unfolding parse_signed_data parse_blocks parse_block bytes_eq
bad_block = refl

extract_certificates-ParseTo_example :
    extract_certificates unmarshal parse_certificate (5 ∷ 6 ∷ [])
    ≡ some (value ((5 ∷ []) ∷ (5 ∷ []) ∷ (6 ∷ []) ∷ (6 ∷ []) ∷ []))
unfolding raw_certificates
extract_certificates-ParseTo_example =
    extract_certificates-ParseTo parse_certificate unmarshal (5 ∷ 6 ∷ [])
      ((5 ∷ []) ∷ (5 ∷ []) ∷ (6 ∷ []) ∷ (6 ∷ []) ∷ []) two_blocks refl
      (refl, (refl, (refl, (refl, tt))))
