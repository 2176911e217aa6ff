-- ===== src/Starttls/Wire/Talks.antt =====
-- starttls/ftp.go and starttls/imap.go: when a connection is upgraded, and what breaks a conversation.
use certigo.Base.{
  Option, ℕ, ◌+◌, ◌*◌, ◌≤◌, ◌<◌, List, [], ◌∷◌, ◌++◌, ◌≡◌, refl, ap, some, false, Bytes, str,
  length, length-append, Result, value, ok, err, panic, arith, ◌==◌, leb,
}
use certigo.Base.Int.{ℤ, pos}
use certigo.X509.{ConnectionState}
use certigo.Starttls.Address.{contains_byte}
use certigo.Starttls.Wire.{
  Incoming, Conn, ftp_status, line_of, read_string, line_read, read_line, digits_value, atoi,
  parse_status, read_ftp, read_imap, upgrade, talk_ftp, talk_imap,
}

line_of-append :
    (text rest : Bytes)
    → contains_byte b'\n' text ≡ false
    → line_of (text ++ b'\n' ∷ rest) ≡ some (text ++ b'\n' ∷ [])
unfolding line_of contains_byte
line_of-append [] rest h = refl
line_of-append (b ∷ bs) rest h = ground (arith, line_of-append bs rest)

-- A line that comes in one chunk, with whatever the chunk holds behind it.
abbrev pub chunk_of : Bytes → Bytes → Bytes
chunk_of text behind = text ++ b'\n' ∷ behind

read_string-chunk :
    (text behind : Bytes) (chunks : List Bytes) (failure : Option Bytes)
    → contains_byte b'\n' text ≡ false
    → read_string failure [] (chunk_of text behind ∷ chunks) ≡ (value (text ++ b'\n' ∷ []), chunks)
unfolding read_string
read_string-chunk text behind chunks failure h = rw (line_of-append text behind h, read_string)

read_line-chunk :
    (text behind : Bytes) (chunks : List Bytes) (failure : Option Bytes) (sent : Bytes)
    → contains_byte b'\n' text ≡ false
    → read_line
        (record { incoming = chunk_of text behind ∷ chunks; failure = failure; sent = sent })
      ≡ (ok (text ++ b'\n' ∷ []), record { incoming = chunks; failure = failure; sent = sent })
unfolding read_line
read_line-chunk text behind chunks failure sent h =
    ap
      (λ r.
        line_read r
          (record { incoming = chunk_of text behind ∷ chunks; failure = failure; sent = sent }))
      (read_string-chunk text behind chunks failure h)

-- Three digits and a text.
abbrev pub reply_of : ℕ → ℕ → ℕ → Bytes → Bytes
reply_of a b c text = (b'0' + a) ∷ (b'0' + b) ∷ (b'0' + c) ∷ text

atoi-digits :
    (a b c : ℕ)
    → a ≤ 9
    → b ≤ 9
    → c ≤ 9
    → atoi ((b'0' + a) ∷ (b'0' + b) ∷ (b'0' + c) ∷ []) ≡ some (pos (100 * a + 10 * b + c))
unfolding atoi digits_value
atoi-digits a b c ha hb hc = ground arith

==-ne : (m n : ℕ) → ¬ m ≡ n → (m == n) ≡ false
==-ne m n differs = ground arith

leb-length : (text : Bytes) → length text < 3 → leb 4 (length (text ++ b'\n' ∷ [])) ≡ false
leb-length text short = rw (length-append text (b'\n' ∷ [])) (ground arith)

parse_status-line :
    (a b c : ℕ) (text : Bytes) (status : ℤ) (c0 : Conn)
    → atoi (a ∷ b ∷ c ∷ []) ≡ some status
    → parse_status (a ∷ b ∷ c ∷ (text ++ b'\n' ∷ [])) c0 ≡ (ok status, c0)
parse_status-line a b c text status c0 h = rw (length-append text (b'\n' ∷ []), h) (ground arith)

read_ftp-reply :
    (a b c : ℕ) (text behind : Bytes) (chunks : List Bytes) (failure : Option Bytes) (sent : Bytes)
    → contains_byte b'\n' (reply_of a b c text) ≡ false
    → a ≤ 9
    → b ≤ 9
    → c ≤ 9
    → read_ftp (record {
      incoming = chunk_of (reply_of a b c text) behind ∷ chunks;
      failure = failure;
      sent = sent;
    })
      ≡ (
        ok (pos (100 * a + 10 * b + c)),
        record { incoming = chunks; failure = failure; sent = sent },
      )
unfolding read_ftp
read_ftp-reply a b c text behind chunks failure sent h ha hb hc =
    rw (read_line-chunk (reply_of a b c text) behind chunks failure sent h)
      (parse_status-line (b'0' + a) (b'0' + b) (b'0' + c) text _ _ (atoi-digits a b c ha hb hc))

-- A server that answers 220 and then 234, each line in a chunk of its own, gets `AUTH TLS`, and the
-- handshake runs on all chunks behind these two, and on them only.
pub talk_ftp-upgrade :
    (handshake : Incoming → Result Bytes ConnectionState) (greeting behind₁ reply behind₂ : Bytes)
    (chunks : List Bytes) (failure : Option Bytes) (sent : Bytes)
    → contains_byte b'\n' (reply_of 2 2 0 greeting) ≡ false
    → contains_byte b'\n' (reply_of 2 3 4 reply) ≡ false
    → talk_ftp handshake (record {
      incoming =
          chunk_of (reply_of 2 2 0 greeting) behind₁
          ∷ chunk_of (reply_of 2 3 4 reply) behind₂
          ∷ chunks;
      failure = failure;
      sent = sent;
    })
      ≡ upgrade handshake
          (record { incoming = chunks; failure = failure; sent = sent ++ str "AUTH TLS\r\n" })
unfolding talk_ftp
talk_ftp-upgrade handshake greeting behind₁ reply behind₂ chunks failure sent hg hr = rw (
  read_ftp-reply 2 2 0 greeting behind₁ (chunk_of (reply_of 2 3 4 reply) behind₂ ∷ chunks) failure
      sent hg (omega arith) (omega arith) (omega arith),
  read_ftp-reply 2 3 4 reply behind₂ chunks failure (sent ++ str "AUTH TLS\r\n") hr (omega arith)
      (omega arith) (omega arith),
)

-- Any other greeting than 220 is an error that names it, and nothing is written.
talk_ftp-greeting :
    (handshake : Incoming → Result Bytes ConnectionState) (a b c : ℕ) (text behind : Bytes)
    (chunks : List Bytes) (failure : Option Bytes) (sent : Bytes)
    → contains_byte b'\n' (reply_of a b c text) ≡ false
    → a ≤ 9
    → b ≤ 9
    → c ≤ 9
    → ¬ 100 * a + 10 * b + c ≡ 220
    → talk_ftp handshake (record {
      incoming = chunk_of (reply_of a b c text) behind ∷ chunks;
      failure = failure;
      sent = sent;
    })
      ≡ (
        err (ftp_status (pos (100 * a + 10 * b + c)) 220),
        record { incoming = chunks; failure = failure; sent = sent },
      )
unfolding talk_ftp
talk_ftp-greeting handshake a b c text behind chunks failure sent h ha hb hc differs = rw (
  read_ftp-reply a b c text behind chunks failure sent h ha hb hc,
  ==-ne (100 * a + 10 * b + c) 220 differs,
)

-- A line of fewer than four bytes, its newline included, panics in the IMAP conversation.
pub talk_imap-short :
    (handshake : Incoming → Result Bytes ConnectionState) (text behind : Bytes)
    (chunks : List Bytes) (failure : Option Bytes) (sent : Bytes)
    → contains_byte b'\n' text ≡ false
    → length text < 3
    → talk_imap handshake
        (record { incoming = chunk_of text behind ∷ chunks; failure = failure; sent = sent })
      ≡ (panic, record { incoming = chunks; failure = failure; sent = sent })
unfolding talk_imap read_imap
talk_imap-short handshake text behind chunks failure sent h short =
    rw (read_line-chunk text behind chunks failure sent h, leb-length text short)
