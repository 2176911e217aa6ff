-- ===== src/Ocsp.antt =====
-- lib/ocsp.go: how the status of a certificate is fetched and checked. The requests to the servers
-- change the state `W` of the outside, which is a parameter, as is the parser of responses.
pub mod Checks
use certigo.Base.{
  is_empty, ℕ, zero, suc, ◌+◌, List, [], ◌∷◌, ◌++◌, Option, none, some, Bool, true, false, not,
  Bytes, str, length, Result, value, error, ◌==◌, ltb, if◌then◌else◌,
}
use certigo.X509.{Certificate}
use certigo.Starttls.Address.{ends_with_byte}

-- `ocsp.Response` with the fields that are shown.
pub record Response : Type 0 where
  pub status : ℕ
  pub revocation_reason : ℕ
  pub produced_at : Bytes
  pub revoked_at : Bytes

pub record HttpRequest : Type 0 where
  pub method : Bytes
  pub url : Bytes
  pub accept : Bytes
  pub content_type : Bytes
  pub body : Bytes

-- `body` is what reading it gives.
pub record HttpResponse : Type 0 where
  pub status_code : ℕ
  pub status : Bytes
  pub body : Result Bytes Bytes

pub record Servers (W : Type 0) : Type 0 where
  pub create_request : Certificate → Certificate → Result Bytes Bytes
  pub base64 : Bytes → Bytes
  -- The error of `http.NewRequest` for a method and a URL.
  pub new_request_error : Bytes → Bytes → Option Bytes
  pub send : HttpRequest → W → Result Bytes HttpResponse × W
  pub parse_response : Bytes → Result Bytes Response

-- Why there is no status.
pub data Failure : Type 0 where
  skipped_revocation_check : Failure
  failed : Bytes → Failure

abbrev pub max_ocsp_validation_retries : ℕ
max_ocsp_validation_retries = 3

module _ {W : Type 0} (H : Servers W) where
  open H use {create_request, base64, new_request_error, send, parse_response}

  abbrev made : HttpRequest → Option Bytes → Result Bytes HttpRequest
  made request none = value request
  made request (some e) = error e

  -- `req.Write` writes the request into the buffer of the encoded bytes: the body stays empty.
  unfoldable pub build_ocsp_with_post : Bytes → Bytes → Result Bytes HttpRequest
  build_ocsp_with_post server encoded =
      made
        (record {
          method = str "POST";
          url = server;
          accept = str "application/ocsp-response";
          content_type = str "application/ocsp-request";
          body = [];
        })
        (new_request_error (str "POST") server)

  unfoldable pub build_ocsp_with_get : Bytes → Bytes → Result Bytes HttpRequest
  build_ocsp_with_get server encoded =
      let url =
        (if ends_with_byte b'/' server then server else server ++ str "/") ++ base64 encoded in
      made
        (record {
          method = str "GET";
          url = url;
          accept = str "application/ocsp-response";
          content_type = [];
          body = [];
        })
        (new_request_error (str "GET") url)

  -- The requests to one server, or the error of the first that cannot be made.
  unfoldable pub requests_for : Bytes → Bytes → Result Bytes (List HttpRequest)
  unfolding build_ocsp_with_get build_ocsp_with_post
  requests_for server encoded =
      if ltb (length encoded) 255
      then elim (build_ocsp_with_get server encoded) [
        | error e ↦ error e
        | value get ↦ elim (build_ocsp_with_post server encoded) [
          | error e ↦ error e
          | value post ↦ value (get ∷ post ∷ [])
        ]
      ]
      else elim (build_ocsp_with_post server encoded) [
        | error e ↦ error e
        | value post ↦ value (post ∷ [])
      ]

  -- A body, or the last error there was.
  abbrev pub Search : Type 0
  Search = Option Bytes → W → Result (Option Bytes) Bytes × W

  abbrev on_body : Search → Result Bytes Bytes → W → Result (Option Bytes) Bytes × W
  on_body rest (value body) w = (value body, w)
  on_body rest (error e) w = rest (some e) w

  abbrev on_answer : Search → Result Bytes HttpResponse × W → Result (Option Bytes) Bytes × W
  on_answer rest (error e, w) = rest (some e) w
  on_answer rest (value response, w) =
      if response.status_code == 200
      then on_body rest response.body w
      else rest (some (str "unexpected status code, got: " ++ response.status)) w

  unfoldable pub send_all : List HttpRequest → Search
  send_all [] last w = (error last, w)
  send_all (request ∷ requests) last w = on_answer (send_all requests) (send request w)

  abbrev go_on : Search → Result (Option Bytes) Bytes × W → Result (Option Bytes) Bytes × W
  go_on rest (value body, w) = (value body, w)
  go_on rest (error last, w) = rest last w

  unfoldable pub ask_servers : List Bytes → Bytes → Search
  unfolding requests_for send_all
  ask_servers [] encoded last w = (error last, w)
  ask_servers (server ∷ servers) encoded last w = elim (requests_for server encoded) [
    | error e ↦ ask_servers servers encoded (some e) w
    | value requests ↦ go_on (ask_servers servers encoded) (send_all requests last w)
  ]

  abbrev over : Option Bytes → Result Bytes Bytes
  over none = value []
  over (some e) = error e

  abbrev next_issuer :
      (Option Bytes → W → Result Bytes Bytes × W)
      → Result (Option Bytes) Bytes × W
      → Result Bytes Bytes × W
  next_issuer rest (value body, w) = (value body, w)
  next_issuer rest (error last, w) = rest last w

  -- Without an error to tell, the bytes are empty.
  unfoldable pub ask_issuers :
      Certificate → List Certificate → Option Bytes → W → Result Bytes Bytes × W
  unfolding ask_servers
  ask_issuers cert [] last w = (over last, w)
  ask_issuers cert (issuer ∷ issuers) last w = elim (create_request cert issuer) [
    | error e ↦ (error (str "failure building request: " ++ e), w)
    | value encoded ↦
        next_issuer (ask_issuers cert issuers) (ask_servers issuer.ocsp_server encoded last w)
  ]

  unfoldable pub fetch_ocsp : Certificate → List Certificate → W → Result Bytes Bytes × W
  unfolding ask_issuers
  fetch_ocsp cert issuers w = ask_issuers cert issuers none w

  abbrev on_parsed :
      (Bytes → W → Result Failure Response × W)
      → Result Bytes Response
      → W
      → Result Failure Response × W
  on_parsed again (value response) w = (value response, w)
  on_parsed again (error e) w = again e w

  abbrev on_fetched :
      (Bytes → W → Result Failure Response × W)
      → Result Bytes Bytes × W
      → Result Failure Response × W
  on_fetched again (error e, w) = (error (failed e), w)
  on_fetched again (value encoded, w) = on_parsed again (parse_response encoded) w

  -- `message` is the error of the try before, which is the result where no try is left.
  unfoldable pub try_ocsp :
      ℕ → Certificate → List Certificate → Bytes → Bytes → W → Result Failure Response × W
  unfolding fetch_ocsp
  try_ocsp zero cert issuers staple message w = (error (failed message), w)
  try_ocsp (suc tries) cert issuers staple message w =
      on_fetched (try_ocsp tries cert issuers staple)
        (if is_empty staple then fetch_ocsp cert issuers w else (value staple, w))

  unfoldable pub check_ocsp : List Certificate → Bytes → W → Result Failure Response × W
  unfolding try_ocsp
  check_ocsp [] staple w = (error skipped_revocation_check, w)
  check_ocsp (cert ∷ []) staple w = (error skipped_revocation_check, w)
  check_ocsp (cert ∷ issuer ∷ issuers) staple w =
      try_ocsp (if is_empty staple then max_ocsp_validation_retries else 1) cert (issuer ∷ issuers)
        staple [] w
