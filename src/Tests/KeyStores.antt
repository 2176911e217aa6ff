-- ===== src/Tests/KeyStores.antt =====
-- Runs of the models of lib/certs.go and jceks/jceks.go on a key store file of certificates.
use mathlib.Core.List.{reverse, Permᴰ}
use mathlib.Core.List.Permᴰ
use certigo.Base.{
  err, ◌++◌, List, [], ◌∷◌, map, ◌≡◌, refl, none, Bytes, str, value, ok, arith, bytes_eq,
}
use certigo.Base.Dict.{lookup, NodupKeys}
use certigo.Jceks.Access.Listing.{IsVisit}
use certigo.X509.{Certificate}
use certigo.Certs.{Block, trim_space}
use certigo.Certs.Stream.{Passwords, read_certs_from_stream, stream_headers}
use certigo.Certs.Stream.Listing.{perform, listing_of}
use certigo.Certs.Stream.Listing.Refines.{read_certs_from_stream-listing_of}
use certigo.Certs.Stream.Listing.Visits.{visiting}
use certigo.Certs.Stream.Listing.Kept.{keep, read_certs_from_stream-visits}
use certigo.Certs.Stream.Listing.TrustStores.{
  Trusted, item_of, entry_of, block_of, file_of, in_order-keep, read_certs_from_stream-file_of,
}
use certigo.Certs.Stream.Listing.Tampered.{read_certs_from_stream-tampered}
use certigo.Certs.Texts.{key_store_error}
use certigo.Jceks.Types.{tampered}
use certigo.Jceks.Parse.{pre_key, widen}
use certigo.Jceks.Takes.{word}
use certigo.Jceks.Encoding.{body_field, items_field, item_field, chain_field}
use certigo.Tests.Certs.{certificate, libraries}

abbrev passwords : Passwords (List Block)
passwords = record { read = λ prompt. value (str "pw"); give_up = λ e blocks. blocks }

abbrev trusted : Bytes → Trusted
trusted name = record {
  alias = name;
  date = 1500;
  der = record { raw = name; cert = certificate name };
}

abbrev authorities : List Trusted
authorities = trusted (str "root") ∷ trusted (str "leaf") ∷ []

abbrev cacerts : Bytes
cacerts = file_of libraries passwords (str "cacerts") (str "pw") authorities []

authorities-NodupKeys : NodupKeys (map entry_of authorities)
unfolding lookup bytes_eq
authorities-NodupKeys = (refl, (refl, tt))

in_order-IsVisit : IsVisit {Cert = Certificate} (λ m. m)
in_order-IsVisit = record { order = λ m. Permᴰ.refl m }

reverse-IsVisit : IsVisit {Cert = Certificate} reverse
reverse-IsVisit = record { order = λ m. Permᴰ.reverse m }

authorities_read :
    read_certs_from_stream
      (visiting (λ m. m) libraries)
      passwords
      cacerts
      none
      (str "cacerts")
      (str "JCEKS")
      keep
      []
    ≡ (ok tt, map (block_of (str "cacerts")) authorities)
unfolding bytes_eq
authorities_read =
    in_order-keep libraries passwords (str "cacerts") (str "pw") authorities [] (omega arith)
      (ground arith) authorities-NodupKeys refl refl refl

read_certs_from_stream-visits_example :
    (others : List Block) × (read_certs_from_stream
        (visiting reverse libraries)
        passwords
        cacerts
        none
        (str "cacerts")
        (str "JCEKS")
        keep
        []
      ≡ (ok tt, others))
    × Permᴰ (map (block_of (str "cacerts")) authorities) others
read_certs_from_stream-visits_example =
    read_certs_from_stream-visits passwords libraries (λ m. m) reverse in_order-IsVisit
      reverse-IsVisit cacerts none (str "cacerts") (str "JCEKS")
      (map (block_of (str "cacerts")) authorities) authorities_read

read_certs_from_stream-file_of_example :
    (blocks : List Block) × (read_certs_from_stream
        (visiting reverse libraries)
        passwords
        cacerts
        none
        (str "cacerts")
        (str "JCEKS")
        keep
        []
      ≡ (ok tt, blocks))
    × Permᴰ (map (block_of (str "cacerts")) authorities) blocks
unfolding bytes_eq
read_certs_from_stream-file_of_example =
    read_certs_from_stream-file_of (visiting reverse libraries) passwords (str "cacerts") (str "pw")
      authorities [] (omega arith) (ground arith) authorities-NodupKeys refl refl refl
      reverse-IsVisit

read_certs_from_stream-listing_of_example :
    read_certs_from_stream libraries passwords cacerts none (str "cacerts") (str "JCEKS") keep
    ≡ perform passwords keep (trim_space (str "JCEKS")) (
        listing_of libraries passwords.read
          (stream_headers (str "cacerts"))
          (trim_space (str "JCEKS"))
          cacerts
          none)
read_certs_from_stream-listing_of_example =
    read_certs_from_stream-listing_of libraries passwords cacerts none (str "cacerts") (str "JCEKS")
      keep

read_certs_from_stream-tampered_example :
    read_certs_from_stream libraries passwords
      (body_field (map item_of authorities) ++ (255 ∷ [] ++ []))
      none
      (str "cacerts")
      (str "JCEKS")
      keep
      []
    ≡ (err (str "unable to parse keystore: " ++ (key_store_error tampered ++ str "\n")), [])
unfolding body_field items_field item_field pre_key widen word chain_field
read_certs_from_stream-tampered_example =
    read_certs_from_stream-tampered libraries passwords (str "cacerts") (str "pw")
      (map item_of authorities) (255 ∷ []) [] refl (omega arith) (ground arith) refl (ground arith)
      keep []
