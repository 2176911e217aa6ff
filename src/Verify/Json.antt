-- ===== src/Verify/Json.antt =====
-- lib/verify.go: `SimpleResult` and the object that its `MarshalJSON` gives to encoding/json.
use certigo.Base.{List, [], Option, none, some, Bytes, Result, value, error, map}
use certigo.X509.{Certificate, Name, ConnectionState, RequestInfo}
use certigo.Certs.{Block}
use certigo.Encoder.Certificates.{SimpleCertificate}
use certigo.Display.{encode_x509_to_object}
use certigo.Tls.{TlsDescription, RequestDescription, encode_tls_to_object, encode_cri_to_object}
use certigo.Verify.{SimpleVerification}

pub record SimpleResult : Type 0 where
  pub certificates : List Certificate
  pub formats : List Bytes
  pub verify_result : Option SimpleVerification
  pub tls_connection_state : Option ConnectionState
  pub certificate_request_info : Option RequestInfo

abbrev pub no_result : SimpleResult
no_result = record {
  certificates = [];
  formats = [];
  verify_result = none;
  tls_connection_state = none;
  certificate_request_info = none;
}

-- The map `out`: a key that is not set is none.
pub record ResultObject : Type 0 where
  pub certificates : List SimpleCertificate
  pub verify_result : Option SimpleVerification
  pub tls_connection : Option TlsDescription
  pub certificate_request_info : Option RequestDescription

abbrev pub tls_object : Option ConnectionState → Option TlsDescription
tls_object none = none
tls_object (some t) = some (encode_tls_to_object t)

module _ (check_signature : Certificate → Certificate → Option Bytes)
    (encode_to_memory : Block → Bytes) (parse_raw_subject : Bytes → Result Bytes Name) where
  abbrev object_of : SimpleResult → Option RequestDescription → ResultObject
  object_of s request = record {
    certificates = map (encode_x509_to_object check_signature encode_to_memory) s.certificates;
    verify_result = s.verify_result;
    tls_connection = tls_object s.tls_connection_state;
    certificate_request_info = request;
  }

  unfoldable pub marshal_json : SimpleResult → Result Bytes ResultObject
  marshal_json s = elim s.certificate_request_info [
    | none ↦ value (object_of s none)
    | some cri ↦ elim (encode_cri_to_object parse_raw_subject cri) [
      | error e ↦ error e
      | value encoded ↦ value (object_of s (some encoded))
    ]
  ]
