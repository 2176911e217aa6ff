-- ===== src/Certs/Inputs.antt =====
-- lib/certs.go: the four functions that read all inputs.
pub mod Errors
pub mod Keeps
use certigo.Base.{
  ℕ, zero, suc, ◌-◌, ◌<◌, ◌≤◌, List, [], ◌∷◌, ◌++◌, Option, none, some, Bool, true, false, not,
  Bytes, str, bytes_eq, length, take, Result, value, error, Outcome, ok, err, panic, M, pure, fail,
  crash, ◌>>=◌, ◌>>◌, if◌then◌else◌, ◌≡◌,
}
use certigo.Base.Dict.{Dict, insert}
use certigo.Jceks.Types.{KeyStore}
use certigo.Jceks.Crypto.{Crypto}
use certigo.Jceks.Parse.{load_from_reader}
use certigo.Jceks.Access.{
  Retrieved, get_cert, get_private_key_and_certs, list_certs, list_private_keys,
}
use certigo.Jceks.Types
use certigo.Pkcs7.{SignedDataEnvelope, parse_signed_data, extract_certificates}
use certigo.X509.{Certificate}
use certigo.Certs.{
  Block, name_header, file_header, error_from_errors, merge_headers, pkcs7_to_pem, merged, for_each,
  trim_space,
}
use certigo.Certs.Formats.{format_for_file}
use certigo.Certs.Texts.{key_store_error, envelope_error}
use certigo.Certs.Stream.{
  Libraries, Passwords, Input, OnBlock, OnCertificate, pem_to_x509, read_certs_from_stream,
}

-- A reader is an input without a name.
abbrev unnamed : List (Bytes × Option Bytes) → List Input
unnamed [] = []
unnamed ((content, failure) ∷ readers) =
    record { name = []; content = content; failure = failure } ∷ unnamed readers

module _ (L : Libraries) {S : Type 0} where
  module _ (password : Passwords S) where
    abbrev pub finish : Option Bytes → M S Bytes (Unit {0})
    finish none = pure tt
    finish (some e) = fail e

    -- A stream's error is kept, and the loop goes on with the next input.
    abbrev pub keep_error :
        (List Bytes → M S Bytes (Unit {0}))
        → List Bytes
        → Outcome Bytes (Unit {0}) × S
        → Outcome Bytes (Unit {0}) × S
    keep_error next errs (ok _, s) = next errs s
    keep_error next errs (err e, s) = next (errs ++ e ∷ []) s
    keep_error next errs (panic, s) = (panic, s)

    -- The loop of the four functions: `refused` is the error of an input whose format is not
    -- known, which leaves the loop at once.
    module _ (refused : Bytes → Bytes) (format : Bytes) (callback : OnBlock S) where
      unfoldable pub read_inputs : List Input → List Bytes → M S Bytes (Unit {0})
      read_inputs [] errs s = finish (error_from_errors errs) s
      read_inputs (input ∷ inputs) errs s =
          elim (format_for_file input.content input.failure input.name format) [
            | error _ ↦ (err (refused input.name), s)
            | value found ↦ keep_error (read_inputs inputs) errs (
                read_certs_from_stream L password input.content input.failure input.name found
                  callback s)
          ]

    unfoldable pub read_as_pem_from_files : List Input → Bytes → OnBlock S → M S Bytes (Unit {0})
    unfolding read_inputs
    read_as_pem_from_files files format callback =
        read_inputs (λ name. str "unable to guess file type for file " ++ name) format callback
          files []

    unfoldable pub read_as_pem :
        List (Bytes × Option Bytes) → Bytes → OnBlock S → M S Bytes (Unit {0})
    unfolding read_inputs
    read_as_pem readers format callback =
        read_inputs (λ _. str "unable to guess format for input stream") format callback
          (unnamed readers) []

    module _ (warn : M S Bytes (Unit {0})) where
      unfoldable pub read_as_x509_from_files :
          List Input → Bytes → OnCertificate S → M S Bytes (Unit {0})
      unfolding read_inputs pem_to_x509
      read_as_x509_from_files files format callback =
          read_inputs
            (λ name.
              str "unable to guess file type for file "
              ++ (name ++ str ", try adding --format flag"))
            format (pem_to_x509 L warn callback) files []

      unfoldable pub read_as_x509 :
          List (Bytes × Option Bytes) → Bytes → OnCertificate S → M S Bytes (Unit {0})
      unfolding read_inputs pem_to_x509
      read_as_x509 readers format callback =
          read_inputs (λ _. str "unable to guess format for input stream") format
            (pem_to_x509 L warn callback) (unnamed readers) []
