-- ===== src/Jceks/Takes.antt =====
-- A specification of reads: `m` takes exactly these bytes, whatever follows them, and gives `a`.
use certigo.Base.{
  ℕ, zero, suc, ◌+◌, ◌*◌, ◌/◌, ◌%◌, ◌^◌, ◌<◌, [], ◌∷◌, ◌++◌, ◌≡◌, refl, Bytes, length,
  length-append, take-append, drop-append, ok, pure, ◌>>=◌, arith, append-nil, append_assoc,
}
use certigo.Base.Int.{signed, signed-pos, pos}
use certigo.Jceks.Types.{Stream}
use certigo.Jceks.Reader.{
  Read, read_full, big_endian, read_uint, read_utf, read_int32, read_sized, read_bytes, read_date,
  to_date,
}

abbrev pub before : Bytes → Bytes → Bytes → Stream
before bytes rest digested = record { unread = bytes ++ rest; digested = digested }

abbrev pub after : Bytes → Bytes → Bytes → Stream
after bytes rest digested = record { unread = rest; digested = digested ++ bytes }

pub record Takes {A : Type 0} (m : Read A) (bytes : Bytes) (a : A) : Type 0 where
  pub run :
      (rest digested : Bytes) → m (before bytes rest digested) ≡ (ok a, after bytes rest digested)

pub Takes-pure : {A : Type 0} (a : A) → Takes (pure a) [] a
Takes-pure a = record { run = λ rest digested. rw append-nil }

pub Takes-bind :
    {A B : Type 0} {m : Read A} (f : A → Read B) {xs ys : Bytes} {a : A} {b : B}
    → Takes m xs a
    → Takes (f a) ys b
    → Takes (m >>= f) (xs ++ ys) b
Takes-bind f {xs} {ys} h k = record {
  run = λ rest digested. rw (
    append_assoc xs ys rest,
    h.run (ys ++ rest) digested,
    k.run rest (digested ++ xs),
    append_assoc digested xs ys,
  );
}

-- A last step that only computes.
pub Takes-map :
    {A B : Type 0} {m : Read A} (f : A → B) {xs : Bytes} {a : A}
    → Takes m xs a
    → Takes (m >>= λ x. pure (f x)) xs (f a)
Takes-map f h = record { run = λ rest digested. rw (h.run rest digested) }

-- A last step that moves nothing past the reader.
pub Takes-decoded :
    {A B : Type 0} {m : Read A} (f : A → Read B) {xs : Bytes} {a : A} {b : B}
    → Takes m xs a
    → f a ≡ pure b
    → Takes (m >>= f) xs b
Takes-decoded f {a} h e = record { run = λ rest digested. rw (h.run rest digested, e) }

pub Takes-read_full : (bytes : Bytes) → Takes (read_full (length bytes)) bytes bytes
unfolding read_full
Takes-read_full bytes = record {
  run = λ rest digested. rw (length-append bytes rest, take-append, drop-append) (ground arith);
}

-- The big-endian word of `size` bytes.
unfoldable pub word : ℕ → ℕ → Bytes
word zero v = []
word (suc size) v = word size (v / 256) ++ v % 256 ∷ []

pub length-word : (size v : ℕ) → length (word size v) ≡ size
unfolding word
length-word zero v = refl
length-word (suc size) v =
    omega (arith, length-append (word size (v / 256)) (v % 256 ∷ []), length-word size (v / 256))

big_endian-concat :
    (acc b : ℕ) (bs : Bytes) → big_endian acc (bs ++ b ∷ []) ≡ big_endian acc bs * 256 + b
unfolding big_endian
big_endian-concat acc b [] = refl
big_endian-concat acc b (c ∷ bs) = big_endian-concat (acc * 256 + c) b bs

pub big_endian-word : (size v : ℕ) → v < 256 ^ size → big_endian 0 (word size v) ≡ v
unfolding word big_endian
big_endian-word zero v h = omega arith
big_endian-word (suc size) v h =
    rw (big_endian-concat 0 (v % 256) (word size (v / 256)))
      (omega (arith, big_endian-word size (v / 256) (omega arith)))

pub Takes-read_uint : (size v : ℕ) → v < 256 ^ size → Takes (read_uint size) (word size v) v
unfolding read_uint
Takes-read_uint size v h =
    let full : Takes (read_full size) (word size v) (word size v) =
      rw (length-word size v) at (Takes-read_full (word size v)) in
    rw (big_endian-word size v h) at (Takes-map (big_endian 0) full)

-- A string behind its length, in two bytes; a byte array, in four.
abbrev pub utf : Bytes → Bytes
utf s = word 2 (length s) ++ s

abbrev pub blob : Bytes → Bytes
blob s = word 4 (length s) ++ s

pub Takes-read_utf : (s : Bytes) → length s < 2 ^ 16 → Takes read_utf (utf s) s
unfolding read_utf
Takes-read_utf s h = Takes-bind _ (Takes-read_uint 2 (length s) h) (Takes-read_full s)

pub Takes-read_int32 : (n : ℕ) → n < 2 ^ 31 → Takes read_int32 (word 4 n) (pos n)
unfolding read_int32
Takes-read_int32 n h =
    rw (signed-pos (2 ^ 31) n h) at
      (Takes-map (signed (2 ^ 31)) (Takes-read_uint 4 n (omega arith)))

pub Takes-read_bytes : (s : Bytes) → length s < 2 ^ 31 → Takes read_bytes (blob s) s
unfolding read_bytes read_sized
Takes-read_bytes s h = Takes-bind _ (Takes-read_int32 (length s) h) (Takes-read_full s)

pub Takes-read_date :
    (v : ℕ) → v < 2 ^ 64 → Takes read_date (word 8 v) (to_date (signed (2 ^ 63) v))
unfolding read_date
Takes-read_date v h = Takes-map (λ w. to_date (signed (2 ^ 63) w)) (Takes-read_uint 8 v h)
