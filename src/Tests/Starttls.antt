-- ===== src/Tests/Starttls.antt =====
-- Runs of the model of starttls/.
use certigo.Base.{
  ◌↔◌, if◌then◌else◌, replicate, drop, ◌/◌, ◌%◌, ◌^◌, ok, length, Option, ◌≤◌, ◌+◌, ◌*◌, List, [],
  ◌∷◌, ◌++◌, ◌≡◌, ◌≢◌, refl, some, none, true, false, Bytes, str, Result, value, error, panic,
  arith, bytes_eq,
}
use certigo.Base.Digits.{decimal}
use certigo.X509.{ConnectionState, RequestInfo}
use certigo.Starttls.Address.{contains_byte, with_default_port, postgres_url}
use certigo.Starttls.Wire.{Incoming, talk_ftp, talk_imap, upgrade}
use certigo.Starttls.Wire.Talks.{chunk_of, reply_of, talk_ftp-upgrade, talk_imap-short}
use certigo.Starttls.Connect.{
  Network, Timers, Target, ConnectResult, finish_connect, finish_attempt, dialer_for,
  get_connection_state,
}
use certigo.Starttls.Mysql.{client_flags, packet_length, ssl_request}
use certigo.Starttls.Mysql.Request.{flags_read, ssl_request-flags}
use certigo.Starttls.Connect.Channel.{
  Shared, Step, send, receive, Reach, begun, later, Reach-finish_attempt, Reach-receives,
}
use certigo.Starttls.Connect.Results.{
  ClearsOldSchemes, get_connection_state-postgres, get_connection_state-ClearsOldSchemes,
}

abbrev state : ConnectionState
state = record {
  version = 0x0301;
  cipher_suite = 0x002F;
  peer_certificates = [];
  ocsp_response = none;
}

abbrev handshake : Incoming → Result Bytes ConnectionState
handshake ([], failure) = error (str "EOF")
handshake (chunk ∷ chunks, failure) = value state

talk_ftp-upgrade_example :
    talk_ftp handshake (record {
      incoming =
          chunk_of (reply_of 2 2 0 (str " ready")) []
          ∷ chunk_of (reply_of 2 3 4 (str " go")) []
          ∷ str "tls"
          ∷ [];
      failure = none;
      sent = [];
    })
    ≡ upgrade handshake
        (record { incoming = str "tls" ∷ []; failure = none; sent = [] ++ str "AUTH TLS\r\n" })
unfolding contains_byte
talk_ftp-upgrade_example =
    talk_ftp-upgrade handshake (str " ready") [] (str " go") [] (str "tls" ∷ []) none [] refl refl

talk_imap-short_example :
    talk_imap handshake
      (record { incoming = chunk_of (str "*") [] ∷ []; failure = none; sent = [] })
    ≡ (panic, record { incoming = []; failure = none; sent = [] })
unfolding contains_byte
talk_imap-short_example = talk_imap-short handshake (str "*") [] [] none [] refl (omega arith)

abbrev pub net : Network
net = record {
  KeyPair = Bytes;
  Dialer = Bytes;
  RawConn = Bytes;
  load_key_pair = λ cert key. value cert;
  net_dialer = [];
  tunnel = λ url auth config. url;
  raw_dial = λ dialer addr. value addr;
  reads_of = λ conn. some (conn ∷ [], none);
  handshake = λ config conn. value state;
  handshake_after = λ config reads. handshake reads;
  ldap_dial = λ addr timeout. value tt;
  ldap_start_tls = λ config. value tt;
  ldap_state = value state;
  mysql_dump = λ config dsn. value state;
  postgres_dump = λ url. value state;
  smtp_dial = λ addr. value tt;
  smtp_hello = λ identity. value tt;
  smtp_start_tls = λ config. value tt;
  smtp_state = none;
  smtp_no_state = state;
  duration_text = decimal;
  quote = λ text. text;
}

abbrev pub in_time : Timers
in_time = record { handshake_late = false; result_late = false }

abbrev target : Target
target = record {
  connect_name = [];
  connect_to = str "db.example.com";
  identity = str "certigo";
  client_cert = [];
  client_key = [];
}

-- A dialer that gives no TCP connection for one address.
abbrev some_tcp : Bytes → Result Bytes (Option Incoming)
some_tcp addr =
    if bytes_eq addr (str "proxied:21") then value none else value (some ((1 ∷ []) ∷ [], none))

get_connection_state-postgres_example :
    ((get_connection_state net in_time none (str "postgres") target none 5000000000 ≡ panic) ↔ (
      ((dialer : Bytes) × (dialer_for net none none ≡ value dialer))
      × ((late : ConnectionState) × (net.postgres_dump (
              postgres_url target.identity
                (with_default_port target.connect_to 5432)
                (5000000000 / 1000000000)
                target.client_cert
                target.client_key)
            ≡ value late))
      × (in_time.result_late ≡ false)))
    × ((given : ConnectionState × Option RequestInfo)
        → get_connection_state net in_time none (str "postgres") target none 5000000000 ≢ ok given)
unfolding bytes_eq
get_connection_state-postgres_example =
    get_connection_state-postgres net in_time none target none 5000000000 (str "postgres") refl

abbrev request : RequestInfo
request = record { acceptable_cas = []; signature_schemes = 0x0401 ∷ [] }

get_connection_state-ClearsOldSchemes_example :
    ClearsOldSchemes
      (get_connection_state net in_time (some request) (str "smtp") target none 5000000000)
get_connection_state-ClearsOldSchemes_example =
    get_connection_state-ClearsOldSchemes net in_time (some request) target none 5000000000
      (str "smtp")

-- The two results of an SMTP server that has not come to TLS.
abbrev two_results : List ConnectResult
two_results = error (str "SMTP connection isn't TLS after StartTLS") ∷ value state ∷ []

abbrev first_received : Shared
first_received = record {
  waits = true;
  unsent = value state ∷ [];
  slot = none;
  got = some (error (str "SMTP connection isn't TLS after StartTLS"));
}

first_received-Reach : Reach two_results 2 first_received
first_received-Reach = later (later begun (send refl refl)) (receive refl refl)

Reach-finish_attempt_example :
    (timers : Timers) × ((cri : Option (Option RequestInfo))
      → finish_connect (error (str "SMTP connection isn't TLS after StartTLS")) cri
        ≡ finish_attempt timers (ok two_results) cri)
Reach-finish_attempt_example = Reach-finish_attempt two_results first_received-Reach refl

Reach-receives_example :
    (2 ≤ 2 + 2 * length two_results)
    × (((t : Shared) → Step first_received t → ⊥) → first_received.got ≢ none)
Reach-receives_example = Reach-receives two_results first_received-Reach

abbrev buffer : Bytes
buffer = replicate 36 7

ssl_request-flags_example :
    (length (ssl_request buffer (client_flags false true 0x0AFF) 33) ≡ packet_length + 4)
    × (flags_read (drop 4 (ssl_request buffer (client_flags false true 0x0AFF) 33))
        ≡ client_flags false true 0x0AFF)
    × (flags_read (drop 4 (ssl_request buffer (client_flags false true 0x0AFF) 33)) / 2 ^ 11 % 2
        ≡ 1)
    × (drop 13 (ssl_request buffer (client_flags false true 0x0AFF) 33) ≡ drop 13 buffer)
ssl_request-flags_example = ssl_request-flags buffer false true 0x0AFF 33 refl
