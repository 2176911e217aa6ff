-- ===== src/Starttls/Connect.antt =====
-- starttls/starttls.go and starttls/dialer.go: `GetConnectionState`. The network is a record of what
-- each library call answers; two goroutines send to one channel, and which of them is first is a
-- parameter. A pointer that may be nil is an option.
pub mod Results
pub mod Channel
use certigo.Base.{
  ℕ, ◌+◌, ◌*◌, ◌/◌, ◌^◌, List, [], ◌∷◌, ◌++◌, Option, none, some, Bool, true, false, not, ◌&&◌,
  ◌||◌, Bytes, str, bytes_eq, Result, value, error, Outcome, ok, err, panic, ◌==◌, ltb,
  if◌then◌else◌,
}
use certigo.X509.{ConnectionState, RequestInfo, version_tls12}
use certigo.Starttls.Address.{TlsConfig, with_default_port, tls_config_for_connect, postgres_url}
use certigo.Starttls.Wire.{Incoming, dump_ftp, dump_imap}
use certigo.Starttls.Wire.Texts.{talk_error}

abbrev pub protocols : List Bytes
protocols =
    str "mysql"
    ∷ str "postgres"
    ∷ str "psql"
    ∷ str "smtp"
    ∷ str "ldap"
    ∷ str "ftp"
    ∷ str "imap"
    ∷ []

-- `url.URL` of the proxy, with the user name and the password of its user.
pub record Proxy : Type 0 where
  pub url : Bytes
  pub user : Option (Bytes × Option Bytes)

-- `net_dialer` is the dialer with the timeout, `tunnel` is `http_dialer.New`; `raw_dial` opens a
-- connection and `reads_of` gives what reads of it will give, where it is a TCP connection;
-- `handshake` is that of `tls.Client`.
pub record Network : Type 1 where
  pub KeyPair : Type 0
  pub Dialer : Type 0
  pub RawConn : Type 0
  pub load_key_pair : Bytes → Bytes → Result Bytes KeyPair
  pub net_dialer : Dialer
  pub tunnel : Bytes → Option (Bytes × Bytes) → Option (TlsConfig KeyPair) → Dialer
  pub raw_dial : Dialer → Bytes → Result Bytes RawConn
  pub reads_of : RawConn → Option Incoming
  pub handshake : TlsConfig KeyPair → RawConn → Result Bytes ConnectionState
  pub handshake_after : TlsConfig KeyPair → Incoming → Result Bytes ConnectionState
  pub ldap_dial : Bytes → ℕ → Result Bytes (Unit {0})
  pub ldap_start_tls : TlsConfig KeyPair → Result Bytes (Unit {0})
  pub ldap_state : Result Bytes ConnectionState
  pub mysql_dump : TlsConfig KeyPair → Bytes → Result Bytes ConnectionState
  pub postgres_dump : Bytes → Result Bytes ConnectionState
  pub smtp_dial : Bytes → Result Bytes (Unit {0})
  pub smtp_hello : Bytes → Result Bytes (Unit {0})
  pub smtp_start_tls : TlsConfig KeyPair → Result Bytes (Unit {0})
  pub smtp_state : Option ConnectionState
  pub smtp_no_state : ConnectionState
  pub duration_text : ℕ → Bytes
  pub quote : Bytes → Bytes

-- The timer of `dialWithDialer` and the timer of `GetConnectionState`: which goes off before the
-- other goroutine has sent.
pub record Timers : Type 0 where
  pub handshake_late : Bool
  pub result_late : Bool

pub record Target : Type 0 where
  pub connect_name : Bytes
  pub connect_to : Bytes
  pub identity : Bytes
  pub client_cert : Bytes
  pub client_key : Bytes

-- A connection's result, as the channel carries it.
abbrev pub ConnectResult : Type 0
ConnectResult = Result Bytes ConnectionState

-- A panic of the goroutine ends the program.
abbrev pub sent_by : Outcome Bytes ConnectionState → Outcome Bytes (List ConnectResult)
sent_by (ok state) = ok (value state ∷ [])
sent_by (err e) = ok (error e ∷ [])
sent_by panic = panic

-- The first result in the channel.
abbrev pub received : Timers → List ConnectResult → ConnectResult
received timers [] = error (str "timed out")
received timers (r ∷ rs) = if timers.result_late then error (str "timed out") else r

-- `cri` is a pointer to the pointer that the callback of the handshake sets.
unfoldable pub finish_connect :
    ConnectResult
    → Option (Option RequestInfo)
    → Outcome Bytes (ConnectionState × Option RequestInfo)
finish_connect (error e) cri = err (str "error connecting: " ++ e)
finish_connect (value state) none = panic
finish_connect (value state) (some none) = ok (state, none)
finish_connect (value state) (some (some info)) = ok (
  state,
  some (if ltb state.version version_tls12 then record info { signature_schemes = [] } else info),
)

abbrev pub finish_attempt :
    Timers
    → Outcome Bytes (List ConnectResult)
    → Option (Option RequestInfo)
    → Outcome Bytes (ConnectionState × Option RequestInfo)
finish_attempt timers (ok sent) cri = finish_connect (received timers sent) cri
finish_attempt timers (err e) cri = err e
finish_attempt timers panic cri = panic

abbrev pub is_postgres : Bytes → Bool
is_postgres protocol = bytes_eq protocol (str "postgres") || bytes_eq protocol (str "psql")

module _ (N : Network) where
  open N use {
    KeyPair, Dialer, RawConn, load_key_pair, net_dialer, tunnel, raw_dial, reads_of, handshake,
    handshake_after, ldap_dial, ldap_start_tls, ldap_state, mysql_dump, postgres_dump, smtp_dial,
    smtp_hello, smtp_start_tls, smtp_state, smtp_no_state, duration_text, quote,
  }

  unfoldable pub wrap_dialer_with_proxy : Proxy → Option (TlsConfig KeyPair) → Result Bytes Dialer
  wrap_dialer_with_proxy proxy config = elim proxy.user [
    | none ↦ value (tunnel proxy.url none config)
    | some (name, none) ↦ error (str "proxy username without password not currently supported")
    | some (name, some password) ↦ value (tunnel proxy.url (some (name, password)) config)
  ]

  unfoldable pub dial_with_dialer : Bool → Dialer → ℕ → Bytes → TlsConfig KeyPair → ConnectResult
  dial_with_dialer late dialer timeout addr config = elim (raw_dial dialer addr) [
    | error e ↦ error e
    | value raw ↦
        if not (timeout == 0) && late
        then error (str "tls: DialWithDialer timed out")
        else handshake config raw
  ]

  -- The results that the goroutine sends, in order. A check that SMTP has come to TLS sends an error
  -- and goes on: the state behind it is the zero value.
  unfoldable pub send_ldap : TlsConfig KeyPair → Bytes → ℕ → List ConnectResult
  send_ldap config addr timeout = elim (ldap_dial addr timeout) [
    | error e ↦ error e ∷ []
    | value _ ↦ elim (ldap_start_tls config) [
      | error e ↦ error e ∷ []
      | value _ ↦ elim ldap_state [
        | error e ↦ error (str "LDAP connection isn't TLS after StartTLS: " ++ e) ∷ []
        | value state ↦ value state ∷ []
      ]
    ]
  ]

  unfoldable pub send_smtp : TlsConfig KeyPair → Bytes → Bytes → List ConnectResult
  send_smtp config addr identity = elim (smtp_dial addr) [
    | error e ↦ error e ∷ []
    | value _ ↦ elim (smtp_hello identity) [
      | error e ↦ error e ∷ []
      | value _ ↦ elim (smtp_start_tls config) [
        | error e ↦ error e ∷ []
        | value _ ↦ elim smtp_state [
          | none ↦ error (str "SMTP connection isn't TLS after StartTLS") ∷ value smtp_no_state ∷ []
          | some state ↦ value state ∷ []
        ]
      ]
    ]
  ]

  abbrev pub connections : Dialer → Bytes → Result Bytes (Option Incoming)
  connections dialer addr = elim (raw_dial dialer addr) [
    | error e ↦ error e
    | value raw ↦ value (reads_of raw)
  ]

  unfoldable pub attempt :
      Timers → Bytes → Target → Dialer → ℕ → TlsConfig KeyPair → Outcome Bytes (List ConnectResult)
  unfolding send_ldap send_smtp dial_with_dialer
  attempt timers protocol target dialer timeout config =
      let addr : ℕ → Bytes = with_default_port target.connect_to in
      if bytes_eq protocol []
      then ok (dial_with_dialer timers.handshake_late dialer timeout (addr 443) config ∷ [])
      else if bytes_eq protocol (str "ldap")
      then ok (send_ldap config (addr 389) timeout)
      else if bytes_eq protocol (str "mysql")
      then ok (
          mysql_dump config (
            target.identity
            ++ (str "@tcp("
                ++ (addr 3306 ++ (str ")/?tls=certigo&timeout=" ++ duration_text timeout))))
          ∷ [])
      else if bytes_eq protocol (str "smtp")
      then ok (send_smtp config (addr 25) target.identity)
      else if bytes_eq protocol (str "ftp")
      then sent_by
          (talk_error quote (dump_ftp (handshake_after config) (connections dialer) (addr 21)))
      else if bytes_eq protocol (str "imap")
      then sent_by
          (talk_error quote (dump_imap (handshake_after config) (connections dialer) (addr 143)))
      else ok (error (str "unknown StartTLS protocol: " ++ protocol) ∷ [])

  -- The branch of postgres, which has no configuration.
  unfoldable pub attempt_postgres : Target → ℕ → List ConnectResult
  attempt_postgres target timeout =
      postgres_dump (
        postgres_url target.identity (with_default_port target.connect_to 5432)
          (timeout / 1000000000) target.client_cert target.client_key)
      ∷ []

  abbrev pub dialer_for : Option Proxy → Option (TlsConfig KeyPair) → Result Bytes Dialer
  dialer_for none config = value net_dialer
  dialer_for (some proxy) config = wrap_dialer_with_proxy proxy config

  -- `captured` is what the callback has stored when the result is received.
  unfoldable pub get_connection_state :
      Timers
      → Option RequestInfo
      → Bytes
      → Target
      → Option Proxy
      → ℕ
      → Outcome Bytes (ConnectionState × Option RequestInfo)
  unfolding attempt attempt_postgres finish_connect wrap_dialer_with_proxy
  get_connection_state timers captured protocol target proxy timeout =
      if is_postgres protocol
      then elim (dialer_for proxy none) [
        | error e ↦ err e
        | value dialer ↦ finish_attempt timers (ok (attempt_postgres target timeout)) none
      ]
      else elim (tls_config_for_connect load_key_pair target.connect_name target.connect_to
          target.client_cert target.client_key) [
            | error e ↦ err e
            | value config ↦ elim (dialer_for proxy (some config)) [
              | error e ↦ err e
              | value dialer ↦
                  finish_attempt timers (attempt timers protocol target dialer timeout config)
                    (some captured)
            ]
          ]
