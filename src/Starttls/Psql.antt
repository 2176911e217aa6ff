-- ===== src/Starttls/Psql.antt =====
-- starttls/psql/conn.go: `DumpTLS`, which certigo has added to its copy of the driver. The calls of the
-- driver's own functions are parameters; the function recovers from every panic, which is an error of
-- its own here.
pub mod Options
use certigo.Base.{
  ℕ, List, [], ◌∷◌, ◌++◌, Option, none, some, Bool, true, false, Bytes, str, bytes_eq, Result,
  value, error, if◌then◌else◌, not, ◌&&◌, ◌||◌, is_empty, take, length,
}
use certigo.Base.Dict.{Dict, lookup, insert}
use certigo.X509.{ConnectionState}

-- `conn.c` after the driver has asked for TLS: a connection of TLS or not.
pub data Secured (TlsConn : Type 0) : Type 0 where
  secured : TlsConn → Secured TlsConn
  unsecured : Secured TlsConn

-- `parse_environ` gives the options of the environment, `parse_opts` adds those of a text, and `dial`
-- may change the options too; `quote` is the verb `%#v` of a text.
pub record Driver : Type 1 where
  pub RawConn : Type 0
  pub TlsConn : Type 0
  pub parse_environ : Result Bytes (Dict Bytes)
  pub parse_url : Bytes → Result Bytes Bytes
  pub parse_opts : Bytes → Dict Bytes → Result Bytes (Dict Bytes)
  pub quote : Bytes → Bytes
  pub is_utf8 : Bytes → Bool
  pub user_current : Result Bytes Bytes
  pub handle_driver_settings : Dict Bytes → Option Bytes
  pub handle_pgpass : Dict Bytes → Dict Bytes
  pub dial : Dict Bytes → Result Bytes (RawConn × Dict Bytes)
  pub ssl : Dict Bytes → RawConn → Result Bytes (Secured TlsConn)
  pub handshake : TlsConn → Result Bytes ConnectionState

-- `values.Get`: the empty text stands for a key that is not set.
abbrev pub found_or_empty : Option Bytes → Bytes
found_or_empty none = []
found_or_empty (some v) = v

abbrev pub get : Bytes → Dict Bytes → Bytes
get k o = found_or_empty (lookup k o)

abbrev pub is_found : Option Bytes → Bool
is_found none = false
is_found (some v) = true

abbrev pub default_options : Dict Bytes
default_options =
    insert (str "extra_float_digits") (str "2")
      (insert (str "port") (str "5432") (insert (str "host") (str "localhost") []))

-- The options of the environment replace the defaults.
unfoldable pub set_all : Dict Bytes → Dict Bytes → Dict Bytes
set_all [] o = o
set_all ((k, v) ∷ environ) o = set_all environ (insert k v o)

abbrev pub starts_with : Bytes → Bytes → Bool
starts_with prefix text = bytes_eq (take (length prefix) text) prefix

abbrev pub with_fallback : Dict Bytes → Dict Bytes
with_fallback o =
    let fallback = get (str "fallback_application_name") o in
    if not (is_empty fallback) && not (is_found (lookup (str "application_name") o))
    then insert (str "application_name") fallback o
    else o

abbrev pub state_of :
    {TlsConn : Type 0}
    → (TlsConn → Result Bytes ConnectionState)
    → Secured TlsConn
    → Result Bytes ConnectionState
state_of handshake (secured conn) = handshake conn
state_of handshake unsecured = error (str "psql: TLS must be enabled to dump TLS data")

module _ (D : Driver) where
  open D use {
    RawConn, TlsConn, parse_environ, parse_url, parse_opts, quote, is_utf8, user_current,
    handle_driver_settings, handle_pgpass, dial, ssl, handshake,
  }

  abbrev pub plain_name : Bytes → Result Bytes Bytes
  plain_name name =
      if starts_with (str "postgres://") name || starts_with (str "postgresql://") name
      then parse_url name
      else value name

  abbrev pub with_encoding : Dict Bytes → Result Bytes (Dict Bytes)
  with_encoding o =
      let enc = get (str "client_encoding") o in
      if not (is_empty enc) && not (is_utf8 enc)
      then error (str "client_encoding must be absent or 'UTF8'")
      else value (insert (str "client_encoding") (str "UTF8") o)

  -- Any other style is a panic of the function.
  abbrev pub with_date_style : Dict Bytes → Result Bytes (Dict Bytes)
  with_date_style o =
      let style = get (str "datestyle") o in
      if is_empty style
      then value (insert (str "datestyle") (str "ISO, MDY") o)
      else if bytes_eq style (str "ISO, MDY")
      then value o
      else error (
          str "pq: unexpected error: "
          ++ quote (str "setting datestyle must be absent or ISO, MDY; got " ++ style))

  abbrev pub with_user : Dict Bytes → Result Bytes (Dict Bytes)
  with_user o =
      if is_empty (get (str "user") o)
      then elim user_current [ error e ↦ error e | value u ↦ value (insert (str "user") u o) ]
      else value o

  -- What the function makes of the options that were given.
  unfoldable pub settle : Dict Bytes → Result Bytes (Dict Bytes)
  settle o = elim (with_encoding (with_fallback o)) [
    | error e ↦ error e
    | value encoded ↦ elim (with_date_style encoded) [
      | error e ↦ error e
      | value dated ↦ with_user dated
    ]
  ]

  unfoldable pub options : Bytes → Result Bytes (Dict Bytes)
  unfolding set_all settle
  options name = elim parse_environ [
    | error e ↦ error e
    | value environ ↦ elim (plain_name name) [
      | error e ↦ error e
      | value plain ↦ elim (parse_opts plain (set_all environ default_options)) [
        | error e ↦ error e
        | value o ↦ settle o
      ]
    ]
  ]

  abbrev pub connected : RawConn × Dict Bytes → Result Bytes ConnectionState
  connected (conn, o) = elim (ssl o conn) [ error e ↦ error e | value c ↦ state_of handshake c ]

  abbrev pub connect : Dict Bytes → Result Bytes ConnectionState
  connect o = elim (handle_driver_settings o) [
    | some e ↦ error e
    | none ↦ elim (dial (handle_pgpass o)) [ error e ↦ error e | value opened ↦ connected opened ]
  ]

  unfoldable pub dump_tls : Bytes → Result Bytes ConnectionState
  unfolding options
  dump_tls name = elim (options name) [ error e ↦ error e | value o ↦ connect o ]
