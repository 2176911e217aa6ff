-- ===== src/Starttls/Mysql.antt =====
-- starttls/mysql/driver.go: `DumpTLS`, which certigo has added to its copy of the driver. The calls of the
-- driver's own functions are parameters.
pub mod Request
use certigo.Base.{
  ℕ, ◌+◌, ◌/◌, ◌%◌, ◌^◌, List, [], ◌∷◌, ◌++◌, Option, none, some, Bool, true, false, Bytes, str,
  Result, value, error, ◌==◌, if◌then◌else◌, take, drop,
}
use certigo.X509.{ConnectionState}

-- `mysql.Config`, with the fields that are read; `tls` is the configuration that the name of the DSN
-- stands for.
pub record Config (Tls : Type 0) : Type 0 where
  pub client_found_rows : Bool
  pub multi_statements : Bool
  pub collation : Bytes
  pub tls : Option Tls

-- `dial` takes what the configuration says of the address; `read_init_packet` gives the flags of the
-- server, below 2 ^ 16; `take_small_buffer` gives a slice as the last use has left it, and
-- `write_packet` the error of the writing, if there is one.
pub record Driver (Tls : Type 0) : Type 1 where
  pub RawConn : Type 0
  pub parse_dsn : Tls → Bytes → Result Bytes (Config Tls)
  pub dial : Config Tls → Result Bytes RawConn
  pub read_init_packet : Config Tls → RawConn → Result Bytes ℕ
  pub take_small_buffer : RawConn → ℕ → Option Bytes
  pub collations : Bytes → Option ℕ
  pub write_packet : RawConn → Bytes → Option Bytes
  pub handshake : Tls → RawConn → Result Bytes ConnectionState

abbrev pub flag_if : Bool → ℕ → ℕ
flag_if true flag = flag
flag_if false flag = 0

-- The flags have no bit in common, so their sum is what `|` makes of them.
abbrev pub client_flags : Bool → Bool → ℕ → ℕ
client_flags found_rows multi_statements flags =
    2 ^ 9
    + 2 ^ 15
    + 2 ^ 0
    + 2 ^ 13
    + 2 ^ 7
    + 2 ^ 19
    + 2 ^ 17
    + 2 ^ 11
    + flag_if (flags / 2 ^ 2 % 2 == 1) (2 ^ 2)
    + flag_if found_rows (2 ^ 1)
    + flag_if multi_statements (2 ^ 16)

abbrev pub packet_length : ℕ
packet_length = 4 + 4 + 1 + 23

-- The packet in the buffer: its four first bytes are for the header that `writePacket` puts there.
abbrev pub ssl_request : Bytes → ℕ → ℕ → Bytes
ssl_request slice flags charset =
    take 4 slice
    ++ (flags % 2 ^ 8)
      ∷ (flags / 2 ^ 8 % 2 ^ 8)
      ∷ (flags / 2 ^ 16 % 2 ^ 8)
      ∷ (flags / 2 ^ 24 % 2 ^ 8)
      ∷ 0
      ∷ 0
      ∷ 0
      ∷ 0
      ∷ charset
      ∷ drop 13 slice

module _ {Tls : Type 0} (D : Driver Tls) where
  open D use {
    RawConn, parse_dsn, dial, read_init_packet, take_small_buffer, collations, write_packet,
    handshake,
  }

  abbrev pub shake_hands : Tls → RawConn → Result Bytes ConnectionState
  shake_hands config conn = elim (handshake config conn) [
    | error e ↦ error (str "mysql: " ++ e)
    | value state ↦ value state
  ]

  abbrev pub request_tls : Config Tls → Tls → RawConn → ℕ → Bytes → Result Bytes ConnectionState
  request_tls config tls conn flags slice = elim (collations config.collation) [
    | none ↦ error (str "mysql: unknown collation")
    | some charset ↦
        elim (write_packet conn (
          ssl_request slice (client_flags config.client_found_rows config.multi_statements flags)
            charset)) [ some e ↦ error (str "mysql: " ++ e) | none ↦ shake_hands tls conn ]
  ]

  abbrev pub talk : Config Tls → Tls → RawConn → Result Bytes ConnectionState
  talk config tls conn = elim (read_init_packet config conn) [
    | error e ↦ error e
    | value flags ↦ elim (take_small_buffer conn (packet_length + 4)) [
      | none ↦ error (str "driver: bad connection")
      | some slice ↦ request_tls config tls conn flags slice
    ]
  ]

  -- `registered` is the configuration that the caller has registered.
  unfoldable pub dump_tls : Tls → Bytes → Result Bytes ConnectionState
  dump_tls registered dsn = elim (parse_dsn registered dsn) [
    | error e ↦ error e
    | value config ↦ elim config.tls [
      | none ↦ error (str "certigo/mysql error: TLS must be enabled to dump TLS data")
      | some tls ↦ elim (dial config) [ error e ↦ error e | value conn ↦ talk config tls conn ]
    ]
  ]
