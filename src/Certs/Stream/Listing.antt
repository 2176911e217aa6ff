-- ===== src/Certs/Stream/Listing.antt =====
-- What an input of lib/certs.go holds, without the caller's state: the blocks in order, and how they
-- end.
pub mod Delivers
pub mod Refines
pub mod Orders
pub mod Visits
pub mod Kept
pub mod TrustStores
pub mod Tampered
use certigo.Base.{
  length, List, [], ◌∷◌, ◌++◌, map, Option, none, some, Bytes, str, bytes_eq, Result, value, error,
  Outcome, ok, err, panic, M, pure, fail, crash, ◌>>◌, if◌then◌else◌,
}
use certigo.Base.Dict.{Dict}
use certigo.Jceks.Types.{KeyStore}
use certigo.Jceks.Types
use certigo.Jceks.Parse.{load_from_reader}
use certigo.Jceks.Access.{
  Retrieved, get_cert, get_private_key_and_certs, list_certs, list_private_keys,
}
use certigo.Pkcs7.{SignedDataEnvelope}
use certigo.X509.{Certificate}
use certigo.Certs.{Block, for_each, merged, pkcs7_to_pem}
use certigo.Certs.Texts.{key_store_error}
use certigo.Certs.Stream.{
  Libraries, Passwords, OnBlock, encode_x509_to_pem, envelopes_of, key_to_pem, named_headers,
  pem_tokens, reread,
}

-- No more blocks, an error, a password that is refused, or a panic.
pub data Ending : Type 0 where
  complete : Ending
  failed : Bytes → Ending
  refused : Bytes → Ending
  crashed : Ending

pub record Listing : Type 0 where
  pub blocks : List Block
  pub ending : Ending

abbrev pub holds : List Block → Listing
holds blocks = record { blocks = blocks; ending = complete }

abbrev pub ends : Ending → Listing
ends ending = record { blocks = []; ending = ending }

-- Blocks, and what comes after them where they are complete.
abbrev pub extend : List Block → Ending → Listing → Listing
extend blocks complete more = record { blocks = blocks ++ more.blocks; ending = more.ending }
extend blocks (failed e) more = record { blocks = blocks; ending = failed e }
extend blocks (refused e) more = record { blocks = blocks; ending = refused e }
extend blocks crashed more = record { blocks = blocks; ending = crashed }

abbrev pub followed_by : Listing → Listing → Listing
followed_by first more = extend first.blocks first.ending more

unfoldable pub gather : {A : Type 0} → (A → Listing) → List A → Listing
gather f [] = ends complete
gather f (a ∷ rest) = followed_by (f a) (gather f rest)

module _ {S : Type 0} (password : Passwords S) (callback : OnBlock S) (format : Bytes) where
  abbrev pub finish : Ending → M S Bytes (Unit {0})
  finish complete = pure tt
  finish (failed e) = fail e
  finish (refused e) = λ s. (panic, password.give_up e s)
  finish crashed = crash

  -- The callback takes the blocks one after the other, until it fails.
  abbrev pub deliver : List Block → M S Bytes (Unit {0})
  deliver blocks = for_each (λ block. callback block format) blocks

  abbrev pub perform : Listing → M S Bytes (Unit {0})
  perform listing = deliver listing.blocks >> finish listing.ending

module _ (L : Libraries) (read : Bytes → Result Bytes Bytes) where
  open L use {
    crypto, sha1, visit, parse_certificate, parse_certificates, unmarshal, pkcs12_to_pem,
    pem_decode,
  }

  abbrev pub asking : Bytes → (Bytes → Listing) → Listing
  asking prompt next = elim (read prompt) [
    | error e ↦ ends (refused e)
    | value secret ↦ next secret
  ]

  abbrev pub cert_blocks : Dict Bytes → List Certificate → List Block
  cert_blocks headers certs = map (λ cert. encode_x509_to_pem cert headers) certs

  module _ (headers : Dict Bytes) where
    abbrev pub token_listing : Bytes → Listing
    token_listing token = elim (pem_decode token) [
      | none ↦ ends crashed
      | some (block, _) ↦ holds (merged block headers ∷ [])
    ]

    abbrev pub pem_listing : Bytes → Listing
    pem_listing content = gather token_listing (pem_tokens L (length content) content)

    abbrev pub envelope_listing : Bytes → Option (Result Bytes (List SignedDataEnvelope)) → Listing
    envelope_listing err0 none = ends crashed
    envelope_listing err0 (some (value envelopes)) =
        holds (map (λ envelope. pkcs7_to_pem envelope headers) envelopes)
    envelope_listing err0 (some (error err1)) = ends (
        failed (
          str "unable to parse certificates from DER data\n* X.509 parser gave: "
          ++ (err0 ++ (str "\n* PKCS7 parser gave: " ++ (err1 ++ str "\n")))))

    abbrev pub der_listing : Bytes → Listing
    der_listing content = elim (parse_certificates content) [
      | value certs ↦ holds (cert_blocks headers certs)
      | error err0 ↦ envelope_listing err0 (envelopes_of unmarshal content)
    ]

    abbrev pub pkcs12_blocks : Result Bytes (List Block) → Listing
    pkcs12_blocks (value (block ∷ blocks)) = holds (map (λ b. merged b headers) (block ∷ blocks))
    pkcs12_blocks (value []) =
        ends (failed (str "keystore appears to be empty or password was incorrect\n"))
    pkcs12_blocks (error e) =
        ends (failed (str "keystore appears to be empty or password was incorrect\n"))

    abbrev pub cert_listing : KeyStore Certificate → Bytes → Listing
    cert_listing ks alias = elim (get_cert ks alias) [
      | none ↦ ends crashed
      | some cert ↦ holds (encode_x509_to_pem cert (named_headers headers alias) ∷ [])
    ]

    abbrev pub key_listing : Dict Bytes → List Certificate → Result Bytes Block → Listing
    key_listing named certs (error e) =
        ends (failed (str "problem reading key: " ++ (e ++ str "\n")))
    key_listing named certs (value block) = holds (block ∷ cert_blocks named certs)

    abbrev pub retrieved_listing : Bytes → Retrieved crypto.Key Certificate → Listing
    retrieved_listing alias found = elim found.error [
      | some e ↦ ends (failed (str "unable to parse keystore: " ++ (key_store_error e ++ str "\n")))
      | none ↦
          key_listing (named_headers headers alias) found.certs
            (key_to_pem L found.key (named_headers headers alias))
    ]

    abbrev pub alias_listing : KeyStore Certificate → Bytes → Listing
    alias_listing ks alias =
        asking alias
          (λ secret. retrieved_listing alias (get_private_key_and_certs crypto ks alias secret))

    abbrev pub key_store_listing : Outcome Types.Error (KeyStore Certificate) → Listing
    key_store_listing panic = ends crashed
    key_store_listing (err e) =
        ends (failed (str "unable to parse keystore: " ++ (key_store_error e ++ str "\n")))
    key_store_listing (ok ks) =
        followed_by (gather (cert_listing ks) (list_certs visit ks))
          (gather (alias_listing ks) (list_private_keys visit ks))

    abbrev pub jceks_listing : Bytes → Option Bytes → Listing
    jceks_listing content failure = asking [] (λ secret.
        key_store_listing
          (reread (load_from_reader parse_certificate sha1 content (some secret)) failure))

    -- A failure of the reading, in front of what a whole input holds.
    abbrev pub whole : Option Bytes → Listing → Listing
    whole none listing = listing
    whole (some e) listing = ends (failed (str "unable to read input: " ++ (e ++ str "\n")))

    unfoldable pub listing_of : Bytes → Bytes → Option Bytes → Listing
    unfolding gather
    listing_of format content failure =
        if bytes_eq format (str "PEM")
        then pem_listing content
        else if bytes_eq format (str "DER")
        then whole failure (der_listing content)
        else if bytes_eq format (str "PKCS12")
        then whole failure (asking [] (λ secret. pkcs12_blocks (pkcs12_to_pem content secret)))
        else if bytes_eq format (str "JCEKS")
        then jceks_listing content failure
        else ends (failed (str "unknown file type '" ++ (format ++ str "'\n")))
