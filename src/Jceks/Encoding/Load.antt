-- ===== src/Jceks/Encoding/Load.antt =====
-- Loading a well-formed key store: the round trip, and the digest behind the entries.
use certigo.Base.{
  ◌^◌, ◌<◌, List, [], ◌++◌, ◌≡◌, ◌≢◌, Option, some, Bytes, length, All, Result, ok, err, arith,
  append_assoc, bytes_eq_refl, bytes_eq_ne, sym,
}
use certigo.Jceks.Types.{tampered}
use certigo.Jceks.Reader.{read_uint32}
use certigo.Jceks.Parse.{
  jceks_magic, jceks_version, pre_key, reading, parse_header, check_digest, verify_digest, parse,
  start, load_from_reader,
}
use certigo.Jceks.Takes.{
  Takes, Takes-bind, Takes-read_full, word, Takes-read_uint, Takes-read_int32,
}
use certigo.Jceks.Encoding.{Item, items_field, body_field, add_items, Fits}
use certigo.Jceks.Encoding.Steps.{Does-items}

-- The digest of a key store with these entries under a password.
abbrev pub digest_of : {Cert : Type 0} → (Bytes → Bytes) → Bytes → List (Item Cert) → Bytes
digest_of sha1 password items = sha1 (pre_key password ++ body_field items)

module _ {Cert : Type 0} (parse_certificate : Bytes → Result Bytes Cert) where
  Takes-header : Takes parse_header (word 4 jceks_magic ++ word 4 jceks_version) jceks_version
  unfolding parse_header read_uint32
  Takes-header =
      Takes-bind _ (Takes-read_uint 4 jceks_magic (omega arith))
        (Takes-read_uint 4 jceks_version (omega arith))

  module _ (sha1 : Bytes → Bytes) where
    -- A parse of a well-formed body comes to the digest with the entries of the body.
    pub parse-body_field :
        (password : Option Bytes) (items : List (Item Cert)) (rest : Bytes)
        → length items < 2 ^ 31
        → All (Fits parse_certificate) items
        → parse parse_certificate sha1 password (start (body_field items ++ rest))
          ≡ reading (verify_digest sha1 password) (record {
            stream = record { unread = rest; digested = body_field items };
            store = add_items items (record { entries = [] });
          })
    unfolding parse body_field
    parse-body_field password items rest hn hi =
        let header = word 4 jceks_magic ++ word 4 jceks_version in
        let count = word 4 (length items) in
        let fields = items_field items in
        rw (
          append_assoc header (count ++ fields) rest,
          (Takes-header).run ((count ++ fields) ++ rest) [],
          append_assoc count fields rest,
          (Takes-read_int32 (length items) hn).run (fields ++ rest) header,
          (Does-items parse_certificate items hi).run rest (header ++ count)
              (record { entries = [] }),
          append_assoc header count fields,
        )

    -- A well-formed body with its digest, whatever stands behind it, loads to the entries of the
    -- body, added in order.
    pub load-encoding :
        (password : Bytes) (items : List (Item Cert)) (rest : Bytes)
        → length items < 2 ^ 31
        → All (Fits parse_certificate) items
        → load_from_reader parse_certificate sha1
            (body_field items ++ (digest_of sha1 password items ++ rest))
            (some password)
          ≡ ok (add_items items (record { entries = [] }))
    unfolding load_from_reader check_digest
    load-encoding password items rest hn hi = rw (
      parse-body_field (some password) items (digest_of sha1 password items ++ rest) hn hi,
      (Takes-read_full (digest_of sha1 password items)).run rest (body_field items),
      bytes_eq_refl (digest_of sha1 password items),
    )

    -- With any other digest of that length, the load fails.
    pub load-encoding_tampered :
        (password : Bytes) (items : List (Item Cert)) (digest rest : Bytes)
        → length items < 2 ^ 31
        → All (Fits parse_certificate) items
        → length digest ≡ length (digest_of sha1 password items)
        → digest ≢ digest_of sha1 password items
        → load_from_reader parse_certificate sha1
            (body_field items ++ (digest ++ rest))
            (some password)
          ≡ err tampered
    unfolding load_from_reader check_digest
    load-encoding_tampered password items digest rest hn hi hl hd = rw (
      parse-body_field (some password) items (digest ++ rest) hn hi,
      ← hl,
      (Takes-read_full digest).run rest (body_field items),
      bytes_eq_ne (digest_of sha1 password items) digest (λ e. hd (sym e)),
    )
