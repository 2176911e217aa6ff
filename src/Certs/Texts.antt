-- ===== src/Certs/Texts.antt =====
-- The texts of the errors of jceks/ and pkcs7/, which lib/certs.go puts into its own.
use certigo.Base.{ℕ, suc, ◌-◌, [], ◌∷◌, ◌++◌, Bytes, str, length, replicate}
use certigo.Base.Int.{ℤ, pos, negsuc}
use certigo.Base.Digits.{decimal, hex}
use certigo.Jceks.Crypto.{Oid}
use certigo.Jceks.Types
use certigo.Jceks.Parse.{jceks_magic, jks_magic, jceks_version}
use certigo.Pkcs7

abbrev pub int_text : ℤ → Bytes
int_text (pos n) = decimal n
int_text (negsuc n) = b'-' ∷ decimal (suc n)

-- `asn1.ObjectIdentifier.String`
unfoldable pub oid_text : Oid → Bytes
oid_text [] = []
oid_text (n ∷ []) = decimal n
oid_text (n ∷ m ∷ ns) = decimal n ++ b'.' ∷ oid_text (m ∷ ns)

abbrev hex8 : ℕ → Bytes
hex8 n = replicate (8 - length (hex n)) b'0' ++ hex n

unfoldable pub key_store_error : Types.Error → Bytes
unfolding oid_text
key_store_error Types.eof = str "EOF"
key_store_error Types.unexpected_eof = str "unexpected EOF"
key_store_error Types.secret_key = str "unimplemented: Secret-key"
key_store_error Types.tampered = str "keystore was tampered with or password was incorrect"
key_store_error Types.no_certificates = str "key has no certificates"
key_store_error (Types.unexpected_magic n) =
    str "unexpected magic: "
    ++ (hex8 n
        ++ (str " != (" ++ (hex8 jceks_magic ++ (str " || " ++ (hex8 jks_magic ++ str ")")))))
key_store_error (Types.unexpected_version n) =
    str "unexpected version: " ++ (decimal n ++ (str " != " ++ decimal jceks_version))
key_store_error (Types.salt_length n) = str "unexpected salt length: " ++ decimal n
key_store_error (Types.block_length n m) =
    str "encrypted data must be a multiple of block length: "
    ++ (decimal n ++ (str " " ++ decimal m))
key_store_error (Types.certificate_type t) = str "unable to handle certificate type: " ++ t
key_store_error (Types.unimplemented_tag n) = str "unimplemented tag: " ++ int_text n
key_store_error (Types.unsupported_encryption oid) =
    str "unsupported encrypted-private-key algorithm: " ++ oid_text oid
key_store_error (Types.unsupported_key oid) =
    str "unsupported private-key algorithm: " ++ oid_text oid
key_store_error (Types.ec_key message) = str "problem parsing ec key asn.1 struct: " ++ message
key_store_error (Types.library message) = message

unfoldable pub envelope_error : Pkcs7.Error → Bytes
unfolding oid_text
envelope_error (Pkcs7.unexpected_oid oid) =
    str "unexpected object identifier (was "
    ++ (oid_text oid ++ (str ", expecting " ++ (oid_text Pkcs7.signed_data_identifier ++ str ")")))
envelope_error (Pkcs7.unknown_version n) =
    str "unknown version number in signed data block (was " ++ (int_text n ++ str ", expecting 1)")
envelope_error (Pkcs7.library message) = message
