-- ===== src/Jceks/Reader.antt =====
-- jceks/jceks.go: `readUTF`, `readBytes`, `readInt32`, `readUint32`, `readDate`, and the two library
-- calls below them, `io.ReadFull` and `binary.Read` of a big-endian integer.
use certigo.Base.{
  ℕ, ◌+◌, ◌*◌, ◌^◌, [], ◌∷◌, ◌++◌, Bytes, length, take, drop, M, ok, err, crash, pure, ◌>>=◌, leb,
  ◌==◌, if◌then◌else◌,
}
use certigo.Base.Int.{ℤ, pos, negsuc, ◌-ℤ◌, ◌*ℤ◌, quot_ℤ, signed}
use certigo.Jceks.Types.{Error, eof, unexpected_eof, Date, Stream}

abbrev pub Read : Type 0 → Type 0
Read A = M Stream Error A

-- Move `n` bytes past the reader.
abbrev pub advance : ℕ → Stream → Stream
advance n s = record { unread = drop n s.unread; digested = s.digested ++ take n s.unread }

-- A short read takes what there is; it is an end of file only where nothing was left.
unfoldable pub read_full : ℕ → Read Bytes
read_full n s =
    if leb n (length s.unread)
    then (ok (take n s.unread), advance n s)
    else (err (if length s.unread == 0 then eof else unexpected_eof), advance (length s.unread) s)

unfoldable pub big_endian : ℕ → Bytes → ℕ
big_endian acc [] = acc
big_endian acc (b ∷ bs) = big_endian (acc * 256 + b) bs

unfoldable pub read_uint : ℕ → Read ℕ
read_uint size = do b ← read_full size; pure (big_endian 0 b)

unfoldable pub read_utf : Read Bytes
read_utf = do n ← read_uint 2; read_full n

unfoldable pub read_int32 : Read ℤ
read_int32 = do v ← read_uint 4; pure (signed (2 ^ 31) v)

unfoldable pub read_uint32 : Read ℕ
read_uint32 = read_uint 4

-- `make([]byte, length)` panics on a negative length.
unfoldable pub read_sized : ℤ → Read Bytes
read_sized (pos n) = read_full n
read_sized (negsuc _) = crash

unfoldable pub read_bytes : Read Bytes
read_bytes = do n ← read_int32; read_sized n

unfoldable pub to_date : ℤ → Date
to_date v =
    let sec = quot_ℤ v 1000 in
    record { sec = sec; nsec = (v -ℤ sec *ℤ pos 1000) *ℤ pos 1000 *ℤ pos 1000 }

unfoldable pub read_date : Read Date
read_date = do v ← read_uint 8; pure (to_date (signed (2 ^ 63) v))
