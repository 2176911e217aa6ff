-- ===== src/Starttls/Wire.antt =====
-- starttls/ftp.go and starttls/imap.go: the conversations in front of the handshake. A connection is
-- the chunks that the reads of it will give, with the end or the error behind them, and the bytes
-- written to it. Each `bufio.NewReader` takes whole chunks, and what it holds behind the line that is
-- asked for is lost with it.
pub mod Talks
pub mod Texts
pub mod Panics
use certigo.Base.{
  ℕ, ◌+◌, ◌*◌, ◌-◌, List, [], ◌∷◌, ◌++◌, Option, none, some, Bool, true, false, ◌&&◌, ◌||◌, Bytes,
  str, bytes_eq, length, take, drop, Result, value, error, Outcome, ok, err, panic, M, pure, fail,
  crash, ◌>>=◌, ◌>>◌, not, ◌==◌, leb, ltb, if◌then◌else◌,
}
use certigo.Base.Int.{ℤ, pos, negsuc, sub_ℕ}
use certigo.X509.{ConnectionState}

-- What the reads of a connection will give: chunks, and then the end, or another error.
abbrev pub Incoming : Type 0
Incoming = List Bytes × Option Bytes

pub record Conn : Type 0 where
  pub incoming : List Bytes
  pub failure : Option Bytes
  pub sent : Bytes

-- The errors of the two conversations.
pub data Error : Type 0 where
  eof : Error
  status_too_short : Bytes → Error
  bad_number : Bytes → Error
  ftp_status : ℤ → ℕ → Error
  imap_status : Bytes → Error
  library : Bytes → Error

abbrev pub Talk : Type 0 → Type 0
Talk A = M Conn Error A

-- A chunk up to and with its first newline, if it has one.
unfoldable pub line_of : Bytes → Option Bytes
line_of [] = none
line_of (b ∷ bs) =
    if b == b'\n'
    then some (b'\n' ∷ [])
    else elim (line_of bs) [ none ↦ none | some line ↦ some (b ∷ line) ]

-- The error of a read behind the last chunk.
abbrev pub read_error : Option Bytes → Error
read_error none = eof
read_error (some e) = library e

-- `ReadString('\n')` of a new reader, with what it has read before.
unfoldable pub read_string : Option Bytes → Bytes → List Bytes → Result Error Bytes × List Bytes
read_string failure seen [] = (error (read_error failure), [])
read_string failure seen (chunk ∷ chunks) = elim (line_of chunk) [
  | some line ↦ (value (seen ++ line), chunks)
  | none ↦ read_string failure (seen ++ chunk) chunks
]

abbrev pub line_read : Result Error Bytes × List Bytes → Conn → Outcome Error Bytes × Conn
line_read (value line, chunks) c = (ok line, record c { incoming = chunks })
line_read (error e, chunks) c = (err e, record c { incoming = chunks })

unfoldable pub read_line : Talk Bytes
unfolding read_string
read_line c = line_read (read_string c.failure [] c.incoming) c

abbrev pub write : Bytes → Talk (Unit {0})
write bytes c = (ok tt, record c { sent = c.sent ++ bytes })

abbrev is_digit : ℕ → Bool
is_digit c = leb b'0' c && leb c b'9'

unfoldable pub digits_value : Bytes → ℕ → Option ℕ
digits_value [] acc = some acc
digits_value (c ∷ cs) acc =
    let rest = digits_value cs (acc * 10 + (c - b'0')) in if is_digit c then rest else none

-- `strconv.Atoi` of a text too short to overflow.
unfoldable pub atoi : Bytes → Option ℤ
atoi [] = none
atoi (c ∷ []) = if is_digit c then some (pos (c - b'0')) else none
atoi (c ∷ d ∷ cs) =
    if c == b'-'
    then elim (digits_value (d ∷ cs) 0) [ none ↦ none | some n ↦ some (sub_ℕ 0 n) ]
    else if c == b'+'
    then elim (digits_value (d ∷ cs) 0) [ none ↦ none | some n ↦ some (pos n) ]
    else elim (digits_value (c ∷ d ∷ cs) 0) [ none ↦ none | some n ↦ some (pos n) ]

abbrev parse_status : Bytes → Talk ℤ
parse_status response =
    if leb (length response) 3
    then fail (status_too_short response)
    else elim (atoi (take 3 response)) [
      | some status ↦ pure status
      | none ↦ fail (bad_number (take 3 response))
    ]

unfoldable pub read_ftp : Talk ℤ
unfolding read_line atoi digits_value
read_ftp = do response ← read_line; parse_status response

-- `response[2:4]` panics where the response is shorter than 4.
unfoldable pub read_imap : Talk Bytes
unfolding read_line
read_imap = do
  response ← read_line
  if leb 4 (length response) then pure (take 2 (drop 2 response)) else crash

abbrev pub is_status : ℕ → ℤ → Bool
is_status expected (pos n) = n == expected
is_status expected (negsuc n) = false

-- The handshake of `tls.Client` on what is left of the connection is the parameter.
module _ (handshake : Incoming → Result Bytes ConnectionState) where
  abbrev shake : Result Bytes ConnectionState → Talk ConnectionState
  shake (value state) = pure state
  shake (error message) = fail (library message)

  unfoldable pub upgrade : Talk ConnectionState
  upgrade c = shake (handshake (c.incoming, c.failure)) c

  unfoldable pub talk_ftp : Talk ConnectionState
  unfolding read_ftp
  talk_ftp = do
    status ← read_ftp
    if not (is_status 220 status) then fail (ftp_status status 220) else (do
      write (str "AUTH TLS\r\n")
      reply ← read_ftp
      if not (is_status 234 reply) then fail (ftp_status reply 234) else upgrade)

  unfoldable pub talk_imap : Talk ConnectionState
  unfolding read_imap
  talk_imap = do
    status ← read_imap
    if not (bytes_eq status (str "OK")) then fail (imap_status status) else (do
      write (str "1 STARTTLS\r\n")
      reply ← read_imap
      if not (bytes_eq reply (str "OK")) then fail (imap_status reply) else upgrade)

  -- `dialer.Dial` gives what the reads of the TCP connection that it opens will give, and nothing
  -- where what it gives is a connection of another type: `c.(*net.TCPConn)` panics there.
  module _ (dial : Bytes → Result Bytes (Option Incoming)) where
    abbrev pub opened :
        Talk ConnectionState → Result Bytes (Option Incoming) → Outcome Error ConnectionState
    opened talk (error message) = err (library message)
    opened talk (value none) = panic
    opened talk (value (some (chunks, failure))) =
        (talk (record { incoming = chunks; failure = failure; sent = [] })).0

    unfoldable pub dump_ftp : Bytes → Outcome Error ConnectionState
    unfolding talk_ftp
    dump_ftp address = opened talk_ftp (dial address)

    unfoldable pub dump_imap : Bytes → Outcome Error ConnectionState
    unfolding talk_imap
    dump_imap address = opened talk_imap (dial address)
