-- ===== src/Certs/Stream/Listing/TrustStores.antt =====
-- lib/certs.go and jceks/jceks.go: the blocks of a key store file that holds certificates alone.
use mathlib.Core.List.{Permᴰ}
use mathlib.Core.List.Permᴰ
use certigo.Base.{
  is_empty, false, bytes_eq, append-nil, ℕ, ◌<◌, ◌^◌, length, List, [], ◌∷◌, ◌++◌, map, ◌≡◌, refl,
  ◌∙◌, ap, sym, subst, append_assoc, none, some, Bytes, str, Result, value, ok, All,
}
use certigo.Base.Dict.{Dict, NodupKeys, insert, insert-fresh, lookup-middle}
use certigo.Jceks.Types.{Entry, trusted_cert, KeyStore}
use certigo.Jceks.Parse.{load_from_reader}
use certigo.Jceks.Access.{
  cert_of, get_cert, cert_aliases, private_aliases, list_certs, list_private_keys,
}
use certigo.Jceks.Access.Listing.{IsVisit}
use certigo.Jceks.Encoding.{Der, Item, cert_item, date_of, body_field, add_items, Fits}
use certigo.Jceks.Encoding.Load.{digest_of, load-encoding}
use certigo.X509.{Certificate}
use certigo.Certs.{file_header, merge_headers, Block, trim_space, trim_left, trim_right}
use certigo.Certs.Stream.{
  Libraries, Passwords, header_of, encode_x509_to_pem, named_headers, read_certs_from_stream,
  stream_headers,
}
use certigo.Certs.Stream.Listing.{
  asking, Listing, holds, gather, perform, cert_listing, alias_listing, key_store_listing,
  listing_of,
}
use certigo.Certs.Stream.Listing.Refines.{read_certs_from_stream-listing_of}
use certigo.Certs.Stream.Listing.Orders.{joined}
use certigo.Certs.Stream.Listing.Visits.{visiting}
use certigo.Certs.Stream.Listing.Kept.{keep, perform-keep, read_certs_from_stream-visits}

-- A certificate of a trust store: its name, its date and its bytes.
pub record Trusted : Type 0 where
  pub alias : Bytes
  pub date : ℕ
  pub der : Der Certificate

abbrev pub item_of : Trusted → Item Certificate
item_of t = cert_item t.alias t.date t.der

abbrev pub entry_of : Trusted → Bytes × Entry Certificate
entry_of t = (t.alias, trusted_cert (date_of t.date) t.der.cert)

abbrev block_in : Dict Bytes → Trusted → Block
block_in headers t = encode_x509_to_pem t.der.cert (named_headers headers t.alias)

-- The block of a certificate: its bytes, the name of the file and its own.
abbrev pub block_of : Bytes → Trusted → Block
block_of filename t = record {
  kind = str "CERTIFICATE";
  bytes = t.der.cert.raw;
  headers = (str "originFile", filename) ∷ (str "friendlyName", t.alias) ∷ [];
}

block_in-file :
    (filename : Bytes) (t : Trusted)
    → block_in (header_of file_header filename) t ≡ block_of filename t
unfolding encode_x509_to_pem merge_headers insert bytes_eq
block_in-file filename t = refl

add_items-entries :
    (m : Dict (Entry Certificate)) (ts : List Trusted)
    → NodupKeys (m ++ map entry_of ts)
    → add_items (map item_of ts) (record { entries = m })
      ≡ record { entries = m ++ map entry_of ts }
unfolding add_items
add_items-entries m [] u = ap (λ entries. record { entries = entries }) (sym (append-nil m))
add_items-entries m (t ∷ ts) u =
    let one = entry_of t ∷ [] in
    let rest = map entry_of ts in
    let fresh = (lookup-middle m rest t.alias (entry_of t).1 u).0 in
    ap (λ entries. add_items (map item_of ts) (record { entries = entries }))
      (insert-fresh t.alias (entry_of t).1 m fresh)
    ∙ add_items-entries (m ++ one) ts (subst NodupKeys (sym (append_assoc m one rest)) u)
    ∙ ap (λ entries. record { entries = entries }) (append_assoc m one rest)

cert_aliases-entries : (ts : List Trusted) → cert_aliases (map entry_of ts) ≡ map (λ t. t.alias) ts
unfolding cert_aliases
cert_aliases-entries [] = refl
cert_aliases-entries (t ∷ ts) = ap (λ ks. t.alias ∷ ks) (cert_aliases-entries ts)

private_aliases-entries : (ts : List Trusted) → private_aliases (map entry_of ts) ≡ []
unfolding private_aliases
private_aliases-entries [] = refl
private_aliases-entries (t ∷ ts) = private_aliases-entries ts

module _ (L : Libraries) (read : Bytes → Result Bytes Bytes) (headers : Dict Bytes) where
  cert_listing-some :
      (ks : KeyStore Certificate) (alias : Bytes) {cert : Certificate}
      → get_cert ks alias ≡ some cert
      → cert_listing L read headers ks alias
        ≡ holds (encode_x509_to_pem cert (named_headers headers alias) ∷ [])
  cert_listing-some ks alias h = rw (h, cert_listing) refl

  abbrev gathered : Dict (Entry Certificate) → List Trusted → Listing
  gathered entries ts =
      gather (cert_listing L read headers (record { entries = entries })) (map (λ t. t.alias) ts)

  gather-entries :
      (m : Dict (Entry Certificate)) (ts : List Trusted)
      → NodupKeys (m ++ map entry_of ts)
      → gathered (m ++ map entry_of ts) ts ≡ holds (map (block_in headers) ts)
  unfolding gather get_cert cert_of
  gather-entries m [] u = refl
  gather-entries m (t ∷ ts) u =
      let one = entry_of t ∷ [] in
      let rest = map entry_of ts in
      let entries = m ++ entry_of t ∷ rest in
      let found = (lookup-middle m rest t.alias (entry_of t).1 u).1 in
      let behind : gathered entries ts ≡ holds (map (block_in headers) ts) =
        subst (λ es. gathered es ts ≡ holds (map (block_in headers) ts)) (append_assoc m one rest)
          (gather-entries (m ++ one) ts (subst NodupKeys (sym (append_assoc m one rest)) u)) in
      joined (cert_listing L read headers (record { entries = entries }) t.alias)
        (gathered entries ts)
        (cert_listing-some (record { entries = entries }) t.alias (ap cert_of found)) behind

abbrev pub in_order : Libraries → Libraries
in_order L = visiting (λ m. m) L

module _ (L : Libraries) (read : Bytes → Result Bytes Bytes) (headers : Dict Bytes) where
  key_store_listing-entries :
      (ts : List Trusted)
      → NodupKeys (map entry_of ts)
      → key_store_listing (in_order L) read headers (ok (record { entries = map entry_of ts }))
        ≡ holds (map (block_in headers) ts)
  unfolding list_certs list_private_keys gather
  key_store_listing-entries ts u =
      let ks : KeyStore Certificate = record { entries = map entry_of ts } in
      joined (gather (cert_listing (in_order L) read headers ks) (list_certs (λ m. m) ks))
        (gather (alias_listing (in_order L) read headers ks) (list_private_keys (λ m. m) ks))
        (ap (gather (cert_listing (in_order L) read headers ks)) (cert_aliases-entries ts)
          ∙ gather-entries (in_order L) read headers [] ts u)
        (ap (gather (alias_listing (in_order L) read headers ks)) (private_aliases-entries ts))
      ∙ ap holds (append-nil (map (block_in headers) ts))

module _ (L : Libraries) (password : Passwords (List Block)) (filename secret : Bytes) where
  abbrev pub file_of : List Trusted → Bytes → Bytes
  file_of ts rest =
      let items = map item_of ts in body_field items ++ (digest_of L.sha1 secret items ++ rest)

  module _ (ts : List Trusted) (rest : Bytes) (short : length (map item_of ts) < 2 ^ 31)
      (fits : All (Fits L.parse_certificate) (map item_of ts)) (u : NodupKeys (map entry_of ts))
      (answer : password.read [] ≡ value secret) (named : is_empty filename ≡ false)
      (no_stdin : bytes_eq filename (str "/dev/stdin") ≡ false) where
    loads :
        load_from_reader L.parse_certificate L.sha1 (file_of ts rest) (some secret)
        ≡ ok (record { entries = map entry_of ts })
    loads =
        load-encoding L.parse_certificate L.sha1 secret (map item_of ts) rest short fits
        ∙ ap ok (add_items-entries [] ts u)

    listing_of-file :
        listing_of
          (in_order L)
          password.read
          (stream_headers filename)
          (trim_space (str "JCEKS"))
          (file_of ts rest)
          none
        ≡ holds (map (block_in (stream_headers filename)) ts)
    unfolding listing_of trim_space trim_left trim_right bytes_eq
    listing_of-file =
        rw (answer, asking, loads)
          (key_store_listing-entries L password.read (stream_headers filename) ts u)

    blocks_in-file : map (block_in (stream_headers filename)) ts ≡ map (block_of filename) ts
    unfolding stream_headers
    blocks_in-file = rw (named, no_stdin) (λ i. map (λ t. block_in-file filename t i) ts)

    -- Where the map is visited in the order of the file, the blocks come in that order.
    pub in_order-keep :
        read_certs_from_stream
          (in_order L)
          password
          (file_of ts rest)
          none
          filename
          (str "JCEKS")
          keep
          []
        ≡ (ok tt, map (block_of filename) ts)
    in_order-keep =
        (λ i.
          read_certs_from_stream-listing_of (in_order L) password (file_of ts rest) none filename
            (str "JCEKS") keep i [])
        ∙ ap (λ listing. perform password keep (trim_space (str "JCEKS")) listing [])
            listing_of-file
        ∙ perform-keep password (trim_space (str "JCEKS"))
            (holds (map (block_in (stream_headers filename)) ts))
        ∙ ap (λ blocks. (ok tt, blocks)) blocks_in-file

    -- A key store file of certificates with distinct names, whose lengths fit their fields, with the
    -- digest under the password that the prompt is answered with, read as JCEKS from a file with a
    -- name: in whatever order the map is visited, and whatever stands behind the digest, the reading
    -- succeeds and gives one block for each certificate, with its bytes, its name and that of the
    -- file.
    pub read_certs_from_stream-file_of :
        IsVisit L.visit
        → (blocks : List Block) × (read_certs_from_stream L password
              (file_of ts rest)
              none
              filename
              (str "JCEKS")
              keep
              []
            ≡ (ok tt, blocks))
          × Permᴰ (map (block_of filename) ts) blocks
    read_certs_from_stream-file_of hv =
        read_certs_from_stream-visits password L (λ m. m) L.visit
          (record { order = λ m. Permᴰ.refl m }) hv (file_of ts rest) none filename (str "JCEKS") _
          in_order-keep
