-- ===== src/Jceks/Encoding.antt =====
-- The format of a key store, written down independently of the parser of jceks/jceks.go.
pub mod Steps
pub mod Load
use certigo.Base.{
  ℕ, zero, suc, ◌+◌, ◌^◌, ◌<◌, List, [], ◌∷◌, ◌++◌, ◌≡◌, ◌≢◌, refl, ap, subst, Option, none, some,
  Bytes, length, All, map, Result, value, error, ok, err, M, pure, ◌>>=◌, ◌>>◌, arith, append-nil,
  append_assoc, bytes_eq, bytes_eq_refl, bytes_eq_ne, sym,
}
use certigo.Base.Int.{pos, signed}
use certigo.Base.Dict.{Dict, insert}
use certigo.Jceks.Types.{
  Error, tampered, Date, Entry, private_key, trusted_cert, KeyStore, Stream, State,
}
use certigo.Jceks.Reader.{Read, read_int32, read_uint32, to_date}
use certigo.Jceks.Parse.{
  jceks_magic, jceks_version, x509_type, pre_key, reading, put_entry, parse_header, parse_chain,
  parse_private_key, parse_trusted_cert, parse_entry, private_key_body, trusted_cert_body,
  parse_entries, check_digest, verify_digest, parse, start, load_from_reader,
}
use certigo.Jceks.Takes.{
  before, after, Takes, Takes-pure, Takes-bind, Takes-map, Takes-decoded, Takes-read_full, word,
  utf, blob, Takes-read_uint, Takes-read_utf, Takes-read_int32, Takes-read_bytes, Takes-read_date,
}

-- A certificate as it stands in the file, with what it parses to.
pub record Der (Cert : Type 0) : Type 0 where
  pub raw : Bytes
  pub cert : Cert

-- An entry as it stands in the file: alias, date, then the encrypted key and its chain, or the
-- certificate.
pub data Item (Cert : Type 0) : Type 0 where
  key_item : Bytes → ℕ → Bytes → List (Der Cert) → Item Cert
  cert_item : Bytes → ℕ → Der Cert → Item Cert

-- The instant that the eight bytes of `v` encode.
abbrev pub date_of : ℕ → Date
date_of v = to_date (signed (2 ^ 63) v)

module _ {Cert : Type 0} where
  abbrev pub cert_field : Der Cert → Bytes
  cert_field c = utf x509_type ++ blob c.raw

  unfoldable pub chain_field : List (Der Cert) → Bytes
  chain_field [] = []
  chain_field (c ∷ cs) = cert_field c ++ chain_field cs

  abbrev item_tag : Item Cert → ℕ
  item_tag (key_item _ _ _ _) = 1
  item_tag (cert_item _ _ _) = 2

  item_body : Item Cert → Bytes
  item_body (key_item alias date key certs) =
      utf alias ++ (word 8 date ++ (blob key ++ (word 4 (length certs) ++ chain_field certs)))
  item_body (cert_item alias date cert) = utf alias ++ (word 8 date ++ cert_field cert)

  unfoldable pub item_field : Item Cert → Bytes
  unfolding item_body
  item_field i = word 4 (item_tag i) ++ item_body i

  unfoldable pub items_field : List (Item Cert) → Bytes
  items_field [] = []
  items_field (i ∷ is) = item_field i ++ items_field is

  unfoldable pub body_field : List (Item Cert) → Bytes
  body_field items =
      (word 4 jceks_magic ++ word 4 jceks_version) ++ (word 4 (length items) ++ items_field items)

  abbrev pub item_alias : Item Cert → Bytes
  item_alias (key_item alias _ _ _) = alias
  item_alias (cert_item alias _ _) = alias

  abbrev pub item_entry : Item Cert → Entry Cert
  item_entry (key_item _ date key certs) = private_key (date_of date) key (map (λ c. c.cert) certs)
  item_entry (cert_item _ date cert) = trusted_cert (date_of date) cert.cert

  abbrev pub add_item : Item Cert → KeyStore Cert → KeyStore Cert
  add_item i store = record { entries = insert (item_alias i) (item_entry i) store.entries }

  unfoldable pub add_items : List (Item Cert) → KeyStore Cert → KeyStore Cert
  add_items [] store = store
  add_items (i ∷ is) store = add_items is (add_item i store)

module _ {Cert : Type 0} (parse_certificate : Bytes → Result Bytes Cert) where
  -- The certificate fits its field, and parses.
  abbrev pub FitsDer : Der Cert → Type 0
  FitsDer c = (length c.raw < 2 ^ 31) × (parse_certificate c.raw ≡ value c.cert)

  -- Lengths fit their fields, and certificates parse.
  abbrev pub Fits : Item Cert → Type 0
  Fits (key_item alias date key certs) =
      (length alias < 2 ^ 16)
      × (date < 2 ^ 64)
      × (length key < 2 ^ 31)
      × (length certs < 2 ^ 31)
      × All FitsDer certs
  Fits (cert_item alias date cert) = (length alias < 2 ^ 16) × (date < 2 ^ 64) × FitsDer cert
