-- ===== src/Tests/Jceks.antt =====
-- Runs of the model of jceks/, over a toy digest, cipher and certificate parser.
use mathlib.Core.List.Permᴰ
use mathlib.Core.List.{reverse}
use certigo.Base.{
  map, bytes_eq, if◌then◌else◌, ◌%◌, ◌<◌, List, [], ◌∷◌, ◌++◌, ◌≡◌, refl, some, Bytes, str,
  bytes_eq, length, take, drop, replicate, Result, value, error, ok, arith,
}
use certigo.Base.Int.{pos, negsuc, pos_part, neg_part}
use certigo.Base.Dict.{lookup, insert}
use certigo.Jceks.Types.{KeyStore, private_key, trusted_cert}
use certigo.Jceks.Reader.{to_date}
use certigo.Jceks.Parse.{load_from_reader}
use certigo.Jceks.Crypto.{Crypto, IsLawful, AlgorithmIdentifier, PbeParameters}
use certigo.Jceks.Pbe.{recover_pbe}
use certigo.Jceks.Pbe.Derivation.{digested, recover_pbe-eq-decrypt}
use certigo.Jceks.Access.{get_cert, list_certs, list_private_keys}
use certigo.Jceks.Access.Listing.{contains, is_some, is_private, IsVisit, contains-listing}
use certigo.Jceks.Dates.{SameInstant, to_date-SameInstant}
use certigo.Jceks.Encoding.{Der, Item, key_item, cert_item, body_field, add_items}
use certigo.Jceks.Encoding.Load.{digest_of, load-encoding}
use certigo.Jceks.Integrity.{IsSigned, load-IsSigned}

-- A certificate is any text; the digest is the length.
abbrev parse_certificate : Bytes → Result Bytes Bytes
parse_certificate [] = error (str "empty")
parse_certificate (b ∷ bs) = value (b ∷ bs)

abbrev pub sha1 : Bytes → Bytes
sha1 bytes = length bytes % 256 ∷ []

abbrev ca : Der Bytes
ca = record { raw = str "CA"; cert = str "CA" }

abbrev items : List (Item Bytes)
items = cert_item (str "root") 1500 ca ∷ key_item (str "leaf") 0 (str "key") (ca ∷ ca ∷ []) ∷ []

abbrev password : Bytes
password = str "pw"

abbrev store : KeyStore Bytes
store = record {
  entries =
      (str "root", trusted_cert (to_date (pos 1500)) (str "CA"))
      ∷ (str "leaf", private_key (to_date (pos 0)) (str "key") (str "CA" ∷ str "CA" ∷ []))
      ∷ [];
}

abbrev signed_file : Bytes
signed_file = body_field items ++ (digest_of sha1 password items ++ [])

load-encoding_example :
    load_from_reader parse_certificate sha1 signed_file (some password)
    ≡ ok (add_items items (record { entries = [] }))
load-encoding_example =
    load-encoding parse_certificate sha1 password items [] (omega arith) (ground arith)

items_store : add_items items (record { entries = [] }) ≡ store
unfolding add_items insert bytes_eq
items_store = refl

load-IsSigned_example : IsSigned sha1 password signed_file
load-IsSigned_example =
    load-IsSigned sha1 password parse_certificate signed_file load-encoding_example

-- The map visited from its end.
abbrev same_order : IsVisit {Cert = Bytes} (λ m. m)
same_order = record { order = λ m. Permᴰ.refl m }

contains-listing_example :
    (contains (str "root") (list_certs (λ m. m) store) ≡ is_some (get_cert store (str "root")))
    × (contains (str "root") (list_private_keys (λ m. m) store)
        ≡ is_private (lookup (str "root") store.entries))
unfolding lookup bytes_eq
contains-listing_example =
    contains-listing (λ m. m) store (str "root") same_order (refl, (refl, tt))

lists : list_certs (λ m. m) store ≡ str "root" ∷ []
unfolding list_certs
lists = refl

to_date-SameInstant_example :
    SameInstant (to_date (negsuc 1499)) (negsuc 1499)
    × (pos_part (to_date (negsuc 1499)).nsec < 1000000000)
    × (neg_part (to_date (negsuc 1499)).nsec < 1000000000)
to_date-SameInstant_example = to_date-SameInstant (negsuc 1499)

abbrev params : PbeParameters
params = record { salt = str "saltsalt"; iterations = pos 2 }

abbrev pub crypto : Crypto
crypto = record {
  Key = Bytes;
  Cipher = Bytes;
  unmarshal_encrypted_key = λ b. error b;
  unmarshal_private_key = λ b. error b;
  unmarshal_ec_key = λ b. error b;
  unmarshal_oid = λ b. error b;
  unmarshal_pbe = λ b. value params;
  marshal_ec_key = λ k. k.private_key;
  parse_pkcs1_key = λ b. value b;
  parse_ec_key = λ b. value b;
  md5 = λ b. replicate 16 (length b);
  new_triple_des = λ k. value k;
  decrypt = λ c iv b. iv ++ b;
}

crypto-IsLawful : IsLawful crypto
crypto-IsLawful = record { length-md5 = λ b. refl; accepts_key = λ k h. (k, refl) }

abbrev algo : AlgorithmIdentifier
algo = record { algorithm = []; parameters = [] }

recover_pbe-eq-decrypt_example :
    let passwd = map (λ b. b % 128) password in
    let first =
      digested crypto 2 passwd
        (if bytes_eq (str "salt") (str "salt") then reverse (str "salt") else str "salt") in
    let second = digested crypto 2 passwd (str "salt") in
    (c : Bytes) × (crypto.new_triple_des (first ++ take 8 second) ≡ value c)
    × (recover_pbe crypto algo (str "8 bytes.") password
        ≡ value (crypto.decrypt c (drop 8 second) (str "8 bytes.")))
recover_pbe-eq-decrypt_example =
    recover_pbe-eq-decrypt crypto crypto-IsLawful algo (str "8 bytes.") password {params = params}
      {n = 1} (str "salt") (str "salt") refl refl refl refl refl refl
