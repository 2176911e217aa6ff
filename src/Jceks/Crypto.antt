-- ===== src/Jceks/Crypto.antt =====
-- What jceks/jceks.go and jceks/pbe.go take from the libraries encoding/asn1, crypto/x509,
-- crypto/md5, crypto/des and crypto/cipher, with the types that they declare for its structures.
use certigo.Base.{ℕ, ◌≡◌, List, Bytes, Result, value, length}
use certigo.Base.Int.{ℤ}

-- An object identifier, by its arcs.
abbrev pub Oid : Type 0
Oid = List ℕ

-- `pkix.AlgorithmIdentifier`, with its parameters as they stand in the encoding.
pub record AlgorithmIdentifier : Type 0 where
  pub algorithm : Oid
  pub parameters : Bytes

pub record EncryptedPrivateKeyInfo : Type 0 where
  pub algo : AlgorithmIdentifier
  pub encrypted_key : Bytes

pub record PrivateKeyInfo : Type 0 where
  pub version : ℤ
  pub algo : AlgorithmIdentifier
  pub private_key : Bytes

pub record EcPrivateKey : Type 0 where
  pub version : ℤ
  pub private_key : Bytes
  pub named_curve_oid : Oid
  pub public_key : Bytes

pub record PbeParameters : Type 0 where
  pub salt : Bytes
  pub iterations : ℤ

pub record Crypto : Type 1 where
  pub Key : Type 0
  pub Cipher : Type 0
  -- `asn1.Unmarshal` at each type, and `asn1.Marshal`, whose error the program drops.
  pub unmarshal_encrypted_key : Bytes → Result Bytes EncryptedPrivateKeyInfo
  pub unmarshal_private_key : Bytes → Result Bytes PrivateKeyInfo
  pub unmarshal_ec_key : Bytes → Result Bytes EcPrivateKey
  pub unmarshal_oid : Bytes → Result Bytes Oid
  pub unmarshal_pbe : Bytes → Result Bytes PbeParameters
  pub marshal_ec_key : EcPrivateKey → Bytes
  pub parse_pkcs1_key : Bytes → Result Bytes Key
  pub parse_ec_key : Bytes → Result Bytes Key
  pub md5 : Bytes → Bytes
  pub new_triple_des : Bytes → Result Bytes Cipher
  -- CBC decryption: cipher, initialisation vector, data.
  pub decrypt : Cipher → Bytes → Bytes → Bytes

-- An MD5 digest has 16 bytes, and triple DES takes every key of 24 bytes.
pub record IsLawful (C : Crypto) : Type 0 where
  pub length-md5 : (bytes : Bytes) → length (C.md5 bytes) ≡ 16
  pub accepts_key :
      (key : Bytes) → length key ≡ 24 → (c : C.Cipher) × (C.new_triple_des key ≡ value c)
