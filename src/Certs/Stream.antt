-- ===== src/Certs/Stream.antt =====
-- lib/certs.go: `readCertsFromStream`, `pemToX509` and `keyToPem`. Reading an input gives its bytes,
-- and then its end or an error.
pub mod KeyStores
pub mod Keeps
pub mod Listing
pub mod Tokens
pub mod PemFiles
use certigo.Base.{
  is_empty, ℕ, zero, suc, ◌-◌, ◌<◌, ◌≤◌, List, [], ◌∷◌, ◌++◌, Option, none, some, Bool, true, false,
  not, Bytes, str, bytes_eq, length, take, drop, Result, value, error, Outcome, ok, err, panic, M,
  pure, fail, crash, ◌>>=◌, ◌>>◌, if◌then◌else◌, ◌≡◌,
}
use certigo.Base.Dict.{Dict, insert}
use certigo.Jceks.Types.{KeyStore}
use certigo.Jceks.Crypto.{Crypto}
use certigo.Jceks.Parse.{load_from_reader}
use certigo.Jceks.Access.{
  Retrieved, get_cert, get_private_key_and_certs, list_certs, list_private_keys,
}
use certigo.Jceks.Types
use certigo.Pkcs7.{Error, SignedDataEnvelope, parse_signed_data, extract_certificates}
use certigo.X509.{Certificate}
use certigo.Certs.{
  Block, name_header, file_header, error_from_errors, merge_headers, pkcs7_to_pem, merged, for_each,
  trim_space,
}
use certigo.Certs.Formats.{format_for_file}
use certigo.Certs.Texts.{key_store_error, envelope_error}

-- What a private key is to `keyToPem`: its PKCS 1 form, its form as an elliptic curve key or the
-- failure of marshalling that, and the name of its type.
pub data KeyKind : Type 0 where
  rsa_key : Bytes → KeyKind
  ecdsa_key : Option Bytes → KeyKind
  unknown_key : KeyKind

pub record Libraries : Type 1 where
  pub crypto : Crypto
  pub key_kind : crypto.Key → KeyKind
  pub key_type : crypto.Key → Bytes
  pub sha1 : Bytes → Bytes
  pub visit : Dict (Types.Entry Certificate) → Dict (Types.Entry Certificate)
  pub parse_certificate : Bytes → Result Bytes Certificate
  pub parse_certificates : Bytes → Result Bytes (List Certificate)
  pub unmarshal : Bytes → Result Bytes (SignedDataEnvelope × Bytes)
  pub pkcs12_to_pem : Bytes → Bytes → Result Bytes (List Block)
  -- `pem.Decode`: a block and what stands behind it.
  pub pem_decode : Bytes → Option (Block × Bytes)

pub record Input : Type 0 where
  pub name : Bytes
  pub content : Bytes
  pub failure : Option Bytes

-- `bufio.MaxScanTokenSize`, the most that the buffer of a scanner holds.
abbrev pub max_token : ℕ
max_token = 65536

-- The passwords of the caller: the answer to a prompt, the same each time that it is asked, and the
-- last state where there is none. The program ends there, so that nothing runs after it, as after a
-- panic.
pub record Passwords (S : Type 0) : Type 0 where
  pub read : Bytes → Result Bytes Bytes
  pub give_up : Bytes → S → S

abbrev pub with_password :
    {S : Type 0} → Passwords S → Bytes → (Bytes → M S Bytes (Unit {0})) → M S Bytes (Unit {0})
with_password passwords prompt next s = elim (passwords.read prompt) [
  | error e ↦ (panic, passwords.give_up e s)
  | value password ↦ next password s
]

-- The error of the reading stands for that of the end, which nothing else gives.
abbrev pub reread : {A : Type 0} → Outcome Types.Error A → Option Bytes → Outcome Types.Error A
reread (ok a) failure = ok a
reread panic failure = panic
reread (err e) none = err e
reread (err Types.eof) (some failure) = err (Types.library failure)
reread (err Types.unexpected_eof) (some failure) = err (Types.library failure)
reread (err e) (some failure) = err e

unfoldable pub encode_x509_to_pem : Certificate → Dict Bytes → Block
encode_x509_to_pem cert headers = record {
  kind = str "CERTIFICATE";
  bytes = cert.raw;
  headers = headers;
}

abbrev pub header_of : Bytes → Bytes → Dict Bytes
header_of k v = (k, v) ∷ []

-- The headers that an input gives to its blocks. `os.Stdin.Name()` is `/dev/stdin`.
unfoldable pub stream_headers : Bytes → Dict Bytes
stream_headers filename =
    if is_empty filename
    then []
    else if bytes_eq filename (str "/dev/stdin")
    then []
    else header_of file_header filename

abbrev pub OnBlock : Type 0 → Type 0
OnBlock S = Block → Bytes → M S Bytes (Unit {0})

abbrev pub OnCertificate : Type 0 → Type 0
OnCertificate S = Option Certificate → Bytes → Option Bytes → M S Bytes (Unit {0})

-- The headers of the blocks of an entry.
abbrev pub named_headers : Dict Bytes → Bytes → Dict Bytes
named_headers headers alias = merge_headers headers (header_of name_header alias)

-- `pkcs7.ParseSignedData`, with the text of its error.
unfoldable pub envelopes_of :
    (Bytes → Result Bytes (SignedDataEnvelope × Bytes))
    → Bytes
    → Option (Result Bytes (List SignedDataEnvelope))
envelopes_of unmarshal content = elim (parse_signed_data unmarshal content) [
  | none ↦ none
  | some parsed ↦ elim parsed.failure [
    | none ↦ some (value parsed.blocks)
    | some e ↦ some (error (envelope_error e))
  ]
]

module _ (L : Libraries) where
  open L use {
    crypto, key_kind, key_type, sha1, visit, parse_certificate, parse_certificates, unmarshal,
    pkcs12_to_pem, pem_decode,
  }

  unfoldable pub key_block : crypto.Key → KeyKind → Dict Bytes → Result Bytes Block
  key_block key (rsa_key raw) headers =
      value (record { kind = str "RSA PRIVATE KEY"; bytes = raw; headers = headers })
  key_block key (ecdsa_key (some raw)) headers =
      value (record { kind = str "EC PRIVATE KEY"; bytes = raw; headers = headers })
  key_block key (ecdsa_key none) headers =
      error (str "error marshaling key: " ++ (key_type key ++ str "\n"))
  key_block key unknown_key headers = error (str "unknown key type: " ++ (key_type key ++ str "\n"))

  -- No key is Go's nil.
  unfoldable pub key_to_pem : Option crypto.Key → Dict Bytes → Result Bytes Block
  unfolding key_block
  key_to_pem (some key) headers = key_block key (key_kind key) headers
  key_to_pem none headers = error (str "unknown key type: %!s(<nil>)\n")

  -- The tokens of the scanner: each is decoded again by the loop, and a nil block there is
  -- dereferenced. The scanner decodes what its buffer holds, and ends where a full buffer holds no
  -- block: its error, of a token too long, is not asked for.
  unfoldable pub pem_tokens : ℕ → Bytes → List Bytes
  pem_tokens zero bytes = []
  pem_tokens (suc fuel) bytes = elim (pem_decode (take max_token bytes)) [
    | none ↦ []
    | some (block, rest) ↦
        let size = length (take max_token bytes) - length rest in
        take size bytes ∷ pem_tokens fuel (drop size bytes)
  ]

  module _ {S : Type 0} where
    -- `warn` prints that certificate requests are not supported.
    module _ (warn : M S Bytes (Unit {0})) where
      abbrev pub certificate_of :
          OnCertificate S → Bytes → Result Bytes Certificate → M S Bytes (Unit {0})
      certificate_of callback format (value cert) = callback (some cert) format none
      certificate_of callback format (error e) = callback none format (some e)

      -- The loop over the certificates of an envelope returns in its first round.
      abbrev pub first_of : OnCertificate S → Bytes → List Certificate → M S Bytes (Unit {0})
      first_of callback format [] = pure tt
      first_of callback format (cert ∷ certs) = callback (some cert) format none

      abbrev pub on_envelope :
          OnCertificate S → Bytes → Option (Result Error (List Certificate)) → M S Bytes (Unit {0})
      on_envelope callback format none = crash
      on_envelope callback format (some (value certs)) = first_of callback format certs
      on_envelope callback format (some (error e)) = callback none format (some (envelope_error e))

      unfoldable pub pem_to_x509 : OnCertificate S → OnBlock S
      pem_to_x509 callback block format =
          if bytes_eq block.kind (str "CERTIFICATE")
          then certificate_of callback format (parse_certificate block.bytes)
          else if bytes_eq block.kind (str "PKCS7")
          then on_envelope callback format
              (extract_certificates unmarshal parse_certificate block.bytes)
          else if bytes_eq block.kind (str "CERTIFICATE REQUEST")
          then warn
          else pure tt

    module _ (password : Passwords S) (callback : OnBlock S) (headers : Dict Bytes) where
      abbrev pub on_token : Bytes → M S Bytes (Unit {0})
      on_token token = elim (pem_decode token) [
        | none ↦ crash
        | some (block, _) ↦ callback (merged block headers) (str "PEM")
      ]

      unfoldable pub read_pem : Bytes → M S Bytes (Unit {0})
      read_pem content = for_each on_token (pem_tokens (length content) content)

      -- `ioutil.ReadAll` in front of what is done with the data.
      abbrev pub read_all : Option Bytes → M S Bytes (Unit {0}) → M S Bytes (Unit {0})
      read_all none next = next
      read_all (some e) next = fail (str "unable to read input: " ++ (e ++ str "\n"))

      abbrev pub on_envelopes :
          Bytes → Bytes → Option (Result Bytes (List SignedDataEnvelope)) → M S Bytes (Unit {0})
      on_envelopes content err0 none = crash
      on_envelopes content err0 (some (value blocks)) =
          for_each (λ block. callback (pkcs7_to_pem block headers) (str "DER")) blocks
      on_envelopes content err0 (some (error err1)) = fail (
          str "unable to parse certificates from DER data\n* X.509 parser gave: "
          ++ (err0 ++ (str "\n* PKCS7 parser gave: " ++ (err1 ++ str "\n"))))

      unfoldable pub read_der : Bytes → M S Bytes (Unit {0})
      unfolding envelopes_of
      read_der content = elim (parse_certificates content) [
        | value certs ↦
            for_each (λ cert. callback (encode_x509_to_pem cert headers) (str "DER")) certs
        | error err0 ↦ on_envelopes content err0 (envelopes_of unmarshal content)
      ]

      abbrev pub on_blocks : Result Bytes (List Block) → M S Bytes (Unit {0})
      on_blocks (value (block ∷ blocks)) =
          for_each (λ b. callback (merged b headers) (str "PKCS12")) (block ∷ blocks)
      on_blocks (value []) = fail (str "keystore appears to be empty or password was incorrect\n")
      on_blocks (error e) = fail (str "keystore appears to be empty or password was incorrect\n")

      unfoldable pub read_pkcs12 : Bytes → M S Bytes (Unit {0})
      read_pkcs12 content =
          with_password password [] (λ secret. on_blocks (pkcs12_to_pem content secret))

      -- A certificate that is not found is a nil pointer.
      unfoldable pub on_cert_alias : KeyStore Certificate → Bytes → M S Bytes (Unit {0})
      on_cert_alias ks alias = elim (get_cert ks alias) [
        | some cert ↦ callback (encode_x509_to_pem cert (named_headers headers alias)) (str "JCEKS")
        | none ↦ crash
      ]

      abbrev pub on_key_block : Bytes → List Certificate → Result Bytes Block → M S Bytes (Unit {0})
      on_key_block alias certs (error e) = fail (str "problem reading key: " ++ (e ++ str "\n"))
      on_key_block alias certs (value block) = do
        callback block (str "JCEKS")
        for_each
            (λ cert. callback (encode_x509_to_pem cert (named_headers headers alias)) (str "JCEKS"))
            certs

      abbrev pub on_retrieved : Bytes → Retrieved crypto.Key Certificate → M S Bytes (Unit {0})
      on_retrieved alias found = elim found.error [
        | some e ↦ fail (str "unable to parse keystore: " ++ (key_store_error e ++ str "\n"))
        | none ↦ on_key_block alias found.certs (key_to_pem found.key (named_headers headers alias))
      ]

      unfoldable pub on_key_alias : KeyStore Certificate → Bytes → M S Bytes (Unit {0})
      unfolding key_to_pem
      on_key_alias ks alias =
          with_password password alias
            (λ secret. on_retrieved alias (get_private_key_and_certs crypto ks alias secret))

      unfoldable pub on_key_store :
          Outcome Types.Error (KeyStore Certificate) → M S Bytes (Unit {0})
      unfolding on_cert_alias on_key_alias
      on_key_store panic = crash
      on_key_store (err e) =
          fail (str "unable to parse keystore: " ++ (key_store_error e ++ str "\n"))
      on_key_store (ok ks) =
          for_each (on_cert_alias ks) (list_certs visit ks)
          >> for_each (on_key_alias ks) (list_private_keys visit ks)

      unfoldable pub read_jceks : Bytes → Option Bytes → M S Bytes (Unit {0})
      unfolding on_key_store
      read_jceks content failure = with_password password [] (λ secret.
          on_key_store
            (reread (load_from_reader parse_certificate sha1 content (some secret)) failure))

      -- The loop over the PEM blocks does not ask for the error of the scanner.
      unfoldable pub read_format : Bytes → Bytes → Option Bytes → M S Bytes (Unit {0})
      unfolding read_pem read_der read_pkcs12 read_jceks
      read_format format content failure =
          if bytes_eq format (str "PEM")
          then read_pem content
          else if bytes_eq format (str "DER")
          then read_all failure (read_der content)
          else if bytes_eq format (str "PKCS12")
          then read_all failure (read_pkcs12 content)
          else if bytes_eq format (str "JCEKS")
          then read_jceks content failure
          else fail (str "unknown file type '" ++ (format ++ str "'\n"))

    module _ (password : Passwords S) where
      unfoldable pub read_certs_from_stream :
          Bytes → Option Bytes → Bytes → Bytes → OnBlock S → M S Bytes (Unit {0})
      unfolding read_format stream_headers
      read_certs_from_stream content failure filename format callback =
          read_format password callback (stream_headers filename) (trim_space format) content
            failure
