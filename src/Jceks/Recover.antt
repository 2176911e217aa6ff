-- ===== src/Jceks/Recover.antt =====
-- jceks/jceks.go: `Recover`.
use certigo.Base.{Bool, [], ◌∷◌, Bytes, Result, value, error, bytes_eq, if◌then◌else◌}
use certigo.Jceks.Types.{Error, unsupported_encryption, unsupported_key, ec_key, library}
use certigo.Jceks.Crypto.{Oid, EncryptedPrivateKeyInfo, PrivateKeyInfo, Crypto}
use certigo.Jceks.Pbe.{recover_pbe}

abbrev pub oid_public_key_rsa : Oid
oid_public_key_rsa = 1 ∷ 2 ∷ 840 ∷ 113549 ∷ 1 ∷ 1 ∷ 1 ∷ []

abbrev pub oid_public_key_ec : Oid
oid_public_key_ec = 1 ∷ 2 ∷ 840 ∷ 10045 ∷ 2 ∷ 1 ∷ []

abbrev pub oid_pbe_with_md5_and_des3_cbc : Oid
oid_pbe_with_md5_and_des3_cbc = 1 ∷ 3 ∷ 6 ∷ 1 ∷ 4 ∷ 1 ∷ 42 ∷ 2 ∷ 19 ∷ 1 ∷ []

-- `asn1.ObjectIdentifier.Equal`
abbrev pub oid_eq : Oid → Oid → Bool
oid_eq = bytes_eq

module _ (C : Crypto) where
  open C use {
    Key, unmarshal_encrypted_key, unmarshal_private_key, unmarshal_ec_key, unmarshal_oid,
    marshal_ec_key, parse_pkcs1_key, parse_ec_key,
  }

  -- An error of the parser, passed on.
  abbrev pub from_library : {A : Type 0} → Result Bytes A → Result Error A
  from_library (value a) = value a
  from_library (error message) = error (library message)

  -- The curve stands in the algorithm identifier, and is put into the key before it is parsed.
  unfoldable pub parse_ec : PrivateKeyInfo → Result Error Key
  parse_ec info = elim (unmarshal_ec_key info.private_key) [
    | error message ↦ error (ec_key message)
    | value key ↦ elim (unmarshal_oid info.algo.parameters) [
      | error message ↦ error (ec_key message)
      | value oid ↦
          from_library (parse_ec_key (marshal_ec_key (record key { named_curve_oid = oid })))
    ]
  ]

  unfoldable pub parse_key : PrivateKeyInfo → Result Error Key
  unfolding parse_ec
  parse_key info =
      if oid_eq info.algo.algorithm oid_public_key_rsa
      then from_library (parse_pkcs1_key info.private_key)
      else if oid_eq info.algo.algorithm oid_public_key_ec
      then parse_ec info
      else error (unsupported_key info.algo.algorithm)

  unfoldable pub decrypt_key : EncryptedPrivateKeyInfo → Bytes → Result Error Bytes
  unfolding recover_pbe
  decrypt_key e_key password =
      if oid_eq e_key.algo.algorithm oid_pbe_with_md5_and_des3_cbc
      then recover_pbe C e_key.algo e_key.encrypted_key password
      else error (unsupported_encryption e_key.algo.algorithm)

  unfoldable pub recover : Bytes → Bytes → Result Error Key
  unfolding decrypt_key parse_key
  recover encoded_key password = elim (unmarshal_encrypted_key encoded_key) [
    | error message ↦ error (library message)
    | value e_key ↦ elim (decrypt_key e_key password) [
      | error e ↦ error e
      | value decrypted_key ↦ elim (unmarshal_private_key decrypted_key) [
        | error message ↦ error (library message)
        | value p_key ↦ parse_key p_key
      ]
    ]
  ]
