-- ===== src/Cli/Connect.antt =====
-- cli/cli.go: the command connect.
pub mod Codes
pub mod Accepts
use certigo.Base.{
  ℕ, zero, suc, List, [], ◌∷◌, ◌++◌, Option, none, some, Bool, true, false, is_empty, Bytes, str,
  Result, value, error, Outcome, ok, err, panic, if◌then◌else◌, not, ◌&&◌,
}
use certigo.X509.{Certificate, ConnectionState, RequestInfo}
use certigo.Certs.{Block, trim_newline}
use certigo.Certs.Stream.{encode_x509_to_pem}
use certigo.Starttls.Address.{before_colon}
use certigo.Starttls.Connect.{Network, Proxy, Timers, Target, get_connection_state}
use certigo.Terminal.{Terminal}
use certigo.Tls.Text.{encode_tls_info_to_text}
use certigo.Verify.{SimpleVerification, verify_chain, chain_warnings, print_verify_result}
use certigo.Verify.Json.{SimpleResult}
use certigo.Cli.{
  Host, Session, Exit, exits, crashes, put, print_line, warn_requests, print_err, result_json,
  certificate_title, certificate_text,
}

-- The pointers `connectStartTLS` and `connectIdentity` are options.
pub record ConnectFlags : Type 0 where
  pub to : Bytes
  pub name : Bytes
  pub ca_path : Bytes
  pub cert : Bytes
  pub key : Bytes
  pub start_tls : Option Bytes
  pub identity : Option Bytes
  pub proxy : Option Proxy
  pub timeout : ℕ
  pub pem : Bool
  pub json : Bool
  pub verify : Bool

abbrev pub target_of : ConnectFlags → Bytes → Target
target_of flags identity = record {
  connect_name = flags.name;
  connect_to = flags.to;
  identity = identity;
  client_cert = flags.cert;
  client_key = flags.key;
}

unfoldable pub hostname : ConnectFlags → Bytes
hostname flags = if not (is_empty flags.name) then flags.name else before_colon flags.to

-- The exit code of a result that is told.
abbrev pub verify_code : Bool → SimpleVerification → ℕ
verify_code asked result = if asked && not (is_empty result.error) then 1 else 0

module _ {W : Type 0} where
  abbrev pub note_connection : ConnectionState → Option RequestInfo → Session W → Session W
  note_connection state cri s = record s {
    result = record s.result { tls_connection_state = some state; certificate_request_info = cri };
  }

  abbrev pub note_verification : SimpleVerification → W → Session W → Session W
  note_verification result w s = record s {
    result = record s.result { verify_result = some result };
    world = w;
  }

  abbrev pub add_certificate : Certificate → Session W → Session W
  add_certificate cert s = record s {
    result = record s.result { certificates = s.result.certificates ++ cert ∷ [] };
  }

  module _ (H : Host W) where
    -- An error of the encoding leaves the output as it is.
    abbrev pub put_pem : Result Bytes Bytes → Session W → Session W
    put_pem (value text) s = put text s
    put_pem (error e) s = s

    unfoldable pub take_peers : Bool → List Certificate → Session W → Session W
    take_peers pem [] s = s
    take_peers pem (cert ∷ certs) s = take_peers pem certs (
        if pem
        then put_pem (H.pem_encode (encode_x509_to_pem cert [])) s
        else add_certificate cert s)

    unfoldable pub connect_texts : ℕ → Bool → ℕ → List Certificate → Bytes
    connect_texts width verbose i [] = []
    connect_texts width verbose i (cert ∷ certs) =
        certificate_title i
        ++ (certificate_text H width verbose cert ++ connect_texts width verbose (suc i) certs)

    abbrev pub connection_text : ConnectionState → Option RequestInfo → Bytes
    connection_text state cri =
        encode_tls_info_to_text H.paint H.parse_raw_subject state cri ++ str "\n\n"

    -- What the text of the verification comes to ends the run.
    abbrev pub finish_text : ℕ → Session W → Outcome Bytes Bytes → Exit × Session W
    finish_text code s (ok text) = (exits code, put text s)
    finish_text code s (err e) = (crashes, s)
    finish_text code s panic = (crashes, s)

    unfoldable pub show_connect :
        ℕ
        → Bool
        → ConnectFlags
        → ConnectionState
        → Option RequestInfo
        → SimpleVerification
        → Session W
        → Exit × Session W
    unfolding connect_texts
    show_connect width verbose flags state cri result s =
        let code = verify_code flags.verify result in
        if flags.json
        then (exits code, print_line (result_json H s.result) s)
        else if flags.pem
        then (exits code, s)
        else finish_text code
            (put (connection_text state cri ++ connect_texts width verbose 0 s.result.certificates)
              s)
            (print_verify_result H.paint result)

    -- `VerifyChain` has no error of its own.
    abbrev pub tell_connect :
        ℕ
        → Bool
        → ConnectFlags
        → ConnectionState
        → Option RequestInfo
        → Outcome Bytes SimpleVerification × W
        → Session W
        → Exit × Session W
    tell_connect width verbose flags state cri (panic, w) s = (crashes, record s { world = w })
    tell_connect width verbose flags state cri (err e, w) s = (crashes, record s { world = w })
    tell_connect width verbose flags state cri (ok result, w) s =
        show_connect width verbose flags state cri result (note_verification result w s)

    unfoldable pub connected :
        ℕ
        → Bool
        → ConnectFlags
        → Outcome Bytes (ConnectionState × Option RequestInfo)
        → Session W
        → Exit × Session W
    unfolding print_err take_peers hostname show_connect
    connected width verbose flags panic s = (crashes, s)
    connected width verbose flags (err e) s = print_err H (trim_newline e ++ str "\n") s
    connected width verbose flags (ok (state, cri)) s =
        tell_connect width verbose flags state cri
          (verify_chain H.verifier state.peer_certificates state.ocsp_response (hostname flags)
            flags.ca_path s.world)
          (warn_requests H.paint (chain_warnings H.verifier state.peer_certificates flags.ca_path)
            (take_peers flags.pem state.peer_certificates (note_connection state cri s)))

    -- `captured` and `timers` are those of `get_connection_state`; a nil pointer is followed where
    -- it is not refused.
    unfoldable pub connect :
        Timers → Option RequestInfo → Terminal → Bool → ConnectFlags → Session W → Exit × Session W
    unfolding print_err connected
    connect timers captured tty verbose flags s = elim flags.start_tls [
      | none ↦ elim flags.identity [
        | some identity ↦ print_err H (str "error: --identity can only be used with --start-tls") s
        | none ↦ (crashes, s)
      ]
      | some protocol ↦ elim flags.identity [
        | none ↦ (crashes, s)
        | some identity ↦
            connected tty.width verbose flags
              (get_connection_state H.network timers captured protocol (target_of flags identity)
                flags.proxy flags.timeout)
              s
      ]
    ]
