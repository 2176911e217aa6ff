-- ===== src/Jceks/Parse.antt =====
-- jceks/jceks.go: `getPreKeyedHash`, `parseHeader`, `parsePrivateKey`, `parseTrustedCert`, `Parse`,
-- `LoadFromReader` and `LoadFromFile`.
use certigo.Base.{
  ℕ, zero, suc, List, [], ◌∷◌, ◌++◌, Option, none, some, Bytes, str, bytes_eq, length, Result,
  value, error, Outcome, ok, err, panic, M, fail, pure, ◌>>=◌, ◌>>◌, not, ◌&&◌, ◌==◌, if◌then◌else◌,
}
use certigo.Base.Int.{ℤ, pos, pos_part}
use certigo.Base.Dict.{insert}
use certigo.Jceks.Types.{
  Error, unexpected_magic, unexpected_version, certificate_type, unimplemented_tag, secret_key,
  tampered, library, Date, Entry, private_key, trusted_cert, KeyStore, State,
}
use certigo.Jceks.Reader.{Read, read_full, read_utf, read_bytes, read_int32, read_uint32, read_date}

abbrev pub jceks_magic : ℕ
jceks_magic = 0xcececece

abbrev pub jks_magic : ℕ
jks_magic = 0xfeedfeed

abbrev pub jceks_version : ℕ
jceks_version = 0x02

abbrev pub x509_type : Bytes
x509_type = str "X.509"

-- The password as big-endian UTF-16.
unfoldable pub widen : Bytes → Bytes
widen [] = []
widen (b ∷ bs) = 0 ∷ b ∷ widen bs

-- What `getPreKeyedHash` writes into the hash before the key store is read.
unfoldable pub pre_key : Bytes → Bytes
pre_key password = widen password ++ str "Mighty Aphrodite"

unfoldable pub parse_header : Read ℕ
parse_header = do
  magic ← read_uint32
  if not (magic == jceks_magic) && not (magic == jks_magic)
      then fail (unexpected_magic magic)
      else read_uint32

-- A read inside the parse of an entry.
abbrev pub reading : {Cert A : Type 0} → Read A → M (State Cert) Error A
reading m s = let (r, t) = m s.stream in (r, record s { stream = t })

-- `ks.entries[alias] = entry`
abbrev pub put_entry : {Cert : Type 0} → Bytes → Entry Cert → M (State Cert) Error (Unit {0})
put_entry alias e s =
    (ok tt, record s { store = record { entries = insert alias e s.store.entries } })

module _ (sha1 : Bytes → Bytes) where
  -- The digest of what was read so far, against the digest at the end of the store.
  unfoldable pub check_digest : Bytes → Read (Unit {0})
  check_digest password s =
      (do
        actual ← read_full (length (sha1 (pre_key password ++ s.digested)))
        if bytes_eq (sha1 (pre_key password ++ s.digested)) actual then pure tt else fail tampered)
        s

  abbrev pub verify_digest : Option Bytes → Read (Unit {0})
  verify_digest none = pure tt
  verify_digest (some password) = check_digest password

module _ {Cert : Type 0} where
  abbrev pub start : Bytes → State Cert
  start bytes = record {
    stream = record { unread = bytes; digested = [] };
    store = record { entries = [] };
  }

  -- The key store, if the parse succeeds.
  abbrev pub loaded : Outcome Error (Unit {0}) × State Cert → Outcome Error (KeyStore Cert)
  loaded (ok _, s) = ok s.store
  loaded (err e, s) = err e
  loaded (panic, s) = panic

module _ {Cert : Type 0} where
  abbrev pub keep_private_key :
      Bytes → Date × Bytes × Option (List Cert) → M (State Cert) Error (Unit {0})
  keep_private_key alias (date, encoded_key, some certs) =
      put_entry alias (private_key date encoded_key certs)
  keep_private_key alias (date, encoded_key, none) = pure tt

  abbrev pub keep_trusted_cert : Bytes → Date × Option Cert → M (State Cert) Error (Unit {0})
  keep_trusted_cert alias (date, some cert) = put_entry alias (trusted_cert date cert)
  keep_trusted_cert alias (date, none) = pure tt

-- `cert, err := x509.ParseCertificate(certBytes)`, with what follows on success and on an error.
abbrev pub on_certificate :
    {Cert A : Type 0} → Result Bytes Cert → (Cert → Read A) → Read A → Read A
on_certificate (value cert) next otherwise = next cert
on_certificate (error _) next otherwise = otherwise

-- The certificate chain of a key: `none` where a certificate does not parse, for there the
-- function around the loop returns with no error and no entry.
module _ {Cert : Type 0} (parse_certificate : Bytes → Result Bytes Cert) where
  unfoldable pub parse_chain : ℕ → List Cert → Read (Option (List Cert))
  parse_chain zero certs = pure (some certs)
  parse_chain (suc n) certs = do
    cert_type ← read_utf
    if bytes_eq cert_type x509_type
        then (do
          cert_bytes ← read_bytes
          on_certificate (parse_certificate cert_bytes) (λ cert. parse_chain n (certs ++ cert ∷ []))
              (pure none))
        else fail (certificate_type cert_type)

  unfoldable pub private_key_body : Read (Date × Bytes × Option (List Cert))
  unfolding parse_chain
  private_key_body = do
    date ← read_date
    encoded_key ← read_bytes
    n_certs ← read_int32
    certs ← parse_chain (pos_part n_certs) []
    pure (date, encoded_key, certs)

  unfoldable pub parse_private_key : M (State Cert) Error (Unit {0})
  unfolding private_key_body
  parse_private_key = do
    alias ← reading read_utf
    body ← reading private_key_body
    keep_private_key alias body

  unfoldable pub trusted_cert_body : Read (Date × Option Cert)
  trusted_cert_body = do
    date ← read_date
    cert_type ← read_utf
    if bytes_eq cert_type x509_type
        then (do
          cert_bytes ← read_bytes
          on_certificate (parse_certificate cert_bytes) (λ cert. pure (date, some cert))
              (pure (date, none)))
        else fail (certificate_type cert_type)

  unfoldable pub parse_trusted_cert : M (State Cert) Error (Unit {0})
  unfolding trusted_cert_body
  parse_trusted_cert = do
    alias ← reading read_utf
    body ← reading trusted_cert_body
    keep_trusted_cert alias body

  unfoldable pub parse_entry : ℤ → M (State Cert) Error (Unit {0})
  parse_entry (pos n) =
      if n == 1
      then parse_private_key
      else if n == 2
      then parse_trusted_cert
      else if n == 3
      then fail secret_key
      else fail (unimplemented_tag (pos n))
  parse_entry tag = fail (unimplemented_tag tag)

  -- The loop over the entries; a negative count makes no round.
  unfoldable pub parse_entries : ℕ → M (State Cert) Error (Unit {0})
  parse_entries zero = pure tt
  parse_entries (suc n) = do tag ← reading read_int32; parse_entry tag; parse_entries n

  module _ (sha1 : Bytes → Bytes) where
    unfoldable pub parse : Option Bytes → M (State Cert) Error (Unit {0})
    parse password = do
      version ← reading parse_header
      if version == jceks_version
          then (do
            count ← reading read_int32
            parse_entries (pos_part count)
            reading (verify_digest sha1 password))
          else fail (unexpected_version version)

    unfoldable pub load_from_reader : Bytes → Option Bytes → Outcome Error (KeyStore Cert)
    load_from_reader bytes password = loaded (parse password (start bytes))

    -- `open` answers with the bytes of the file.
    unfoldable pub load_from_file :
        (Bytes → Result Bytes Bytes) → Bytes → Option Bytes → Outcome Error (KeyStore Cert)
    load_from_file open_file filename password = elim (open_file filename) [
      | value bytes ↦ load_from_reader bytes password
      | error message ↦ err (library message)
    ]
