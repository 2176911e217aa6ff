-- ===== src/Pkcs7.antt =====
-- The package pkcs7: pkcs7/pkcs7.go. `asn1.Unmarshal` at the envelope is the parameter `unmarshal`,
-- which gives the envelope and what stands behind it.
pub mod Blocks
pub mod Extract
use certigo.Base.{
  ℕ, zero, suc, List, [], ◌∷◌, ◌++◌, Option, none, some, Bytes, length, bytes_eq, Result, value,
  error, Bool, false, not, ◌==◌, if◌then◌else◌,
}
use certigo.Base.Int.{ℤ, pos, negsuc}
use certigo.Jceks.Crypto.{Oid}
use certigo.Jceks.Recover.{oid_eq}

-- `SignedDataEnvelope` with the fields of its `SignedData` that the program reads; a certificate is
-- the full bytes of its raw value.
pub record SignedDataEnvelope : Type 0 where
  pub raw : Bytes
  pub oid : Oid
  pub version : ℤ
  pub certificates : List Bytes

-- The errors of the package; `library` carries the text of an error that a library call gave.
pub data Error : Type 0 where
  unexpected_oid : Oid → Error
  unknown_version : ℤ → Error
  library : Bytes → Error

-- The two results of `ParseSignedData`, which gives blocks along with an error.
pub record Parsed : Type 0 where
  pub blocks : List SignedDataEnvelope
  pub failure : Option Error

abbrev pub signed_data_identifier : Oid
signed_data_identifier = 1 ∷ 2 ∷ 840 ∷ 113549 ∷ 1 ∷ 7 ∷ 2 ∷ []

abbrev pub is_one : ℤ → Bool
is_one (pos n) = n == 1
is_one (negsuc n) = false

abbrev pub accept_block :
    Result Bytes (SignedDataEnvelope × Bytes) → Result Error (SignedDataEnvelope × Bytes)
accept_block (error message) = error (library message)
accept_block (value (envelope, rest)) =
    if not (oid_eq signed_data_identifier envelope.oid)
    then error (unexpected_oid envelope.oid)
    else if not (is_one envelope.version)
    then error (unknown_version envelope.version)
    else value (envelope, rest)

module _ {Cert : Type 0} (parse_certificate : Bytes → Result Bytes Cert) where
  -- The loops over the certificates of a block, and over the blocks.
  unfoldable pub extract_block : List Bytes → List Cert → Result Error (List Cert)
  extract_block [] certs = value certs
  extract_block (raw ∷ raws) certs = elim (parse_certificate raw) [
    | error message ↦ error (library message)
    | value cert ↦ extract_block raws (certs ++ cert ∷ [])
  ]

  unfoldable pub extract_blocks : List SignedDataEnvelope → List Cert → Result Error (List Cert)
  extract_blocks [] certs = value certs
  extract_blocks (block ∷ blocks) certs = elim (extract_block block.certificates certs) [
    | error e ↦ error e
    | value more ↦ extract_blocks blocks more
  ]

  abbrev extract_parsed : Parsed → Result Error (List Cert)
  extract_parsed parsed = elim parsed.failure [
    | some e ↦ error e
    | none ↦ extract_blocks parsed.blocks []
  ]

module _ (unmarshal : Bytes → Result Bytes (SignedDataEnvelope × Bytes)) where
  unfoldable pub parse_block : Bytes → Result Error (SignedDataEnvelope × Bytes)
  parse_block bytes = accept_block (unmarshal bytes)

  -- `none` means that the fuel ran out.
  unfoldable pub parse_blocks : ℕ → Bytes → List SignedDataEnvelope → Option Parsed
  parse_blocks fuel [] out = some (record { blocks = out; failure = none })
  parse_blocks zero (b ∷ bs) out = none
  parse_blocks (suc fuel) (b ∷ bs) out = elim (parse_block (b ∷ bs)) [
    | error e ↦ some (record { blocks = out; failure = some e })
    | value (block, rest) ↦ parse_blocks fuel rest (out ++ block ∷ [])
  ]

  -- Each round takes a byte at least.
  unfoldable pub parse_signed_data : Bytes → Option Parsed
  parse_signed_data bytes = parse_blocks (length bytes) bytes []

  module _ {Cert : Type 0} (parse_certificate : Bytes → Result Bytes Cert) where
    unfoldable pub extract_certificates : Bytes → Option (Result Error (List Cert))
    extract_certificates bytes = elim (parse_signed_data bytes) [
      | none ↦ none
      | some parsed ↦ some (extract_parsed parse_certificate parsed)
    ]
