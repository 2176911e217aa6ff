-- ===== src/Jceks/Types.antt =====
-- The data of jceks/jceks.go: errors, dates, entries, the key store and the state of a parse.
use certigo.Base.{ℕ, List, Bytes}
use certigo.Base.Int.{ℤ}
use certigo.Base.Dict.{Dict}

-- The errors of the package; `library` carries the text of an error that a library call gave.
pub data Error : Type 0 where
  eof unexpected_eof secret_key tampered no_certificates : Error
  unexpected_magic unexpected_version salt_length : ℕ → Error
  block_length : ℕ → ℕ → Error
  certificate_type : Bytes → Error
  unimplemented_tag : ℤ → Error
  unsupported_encryption unsupported_key : List ℕ → Error
  ec_key library : Bytes → Error

-- The arguments of `time.Unix`.
pub record Date : Type 0 where
  pub sec : ℤ
  pub nsec : ℤ

pub data Entry (Cert : Type 0) : Type 0 where
  private_key : Date → Bytes → List Cert → Entry Cert
  trusted_cert : Date → Cert → Entry Cert

pub record KeyStore (Cert : Type 0) : Type 0 where
  pub entries : Dict (Entry Cert)

-- The reader: the bytes that are left, and those that went by, which are the ones that
-- `io.TeeReader` has handed to the hash where `Parse` has put one around the reader.
pub record Stream : Type 0 where
  pub unread : Bytes
  pub digested : Bytes

pub record State (Cert : Type 0) : Type 0 where
  pub stream : Stream
  pub store : KeyStore Cert
