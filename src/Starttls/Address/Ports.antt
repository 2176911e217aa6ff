-- ===== src/Starttls/Address/Ports.antt =====
-- starttls/starttls.go: what `withDefaultPort` does with each kind of address.
use certigo.Base.{
  ℕ, [], ◌∷◌, ◌++◌, ◌≡◌, refl, ap, ◌∙◌, true, false, ◌&&◌, ◌||◌, Bytes, arith, ◌==◌, inl, inr,
  Bool-cases, append_assoc,
}
use certigo.Base.Digits.{decimal, EndsInDigit, decimal_last}
use certigo.Starttls.Address.{
  starts_with_byte, ends_with_byte, contains_byte, join_host_port, with_default_port, before_colon,
  server_name,
}

contains_byte-append :
    (c : ℕ) (xs ys : Bytes)
    → contains_byte c (xs ++ ys) ≡ (contains_byte c xs || contains_byte c ys)
unfolding contains_byte
contains_byte-append c [] ys = refl
contains_byte-append c (x ∷ xs) ys = ground (arith, contains_byte-append c xs ys)

pub ends_with_byte-concat : (c d : ℕ) (xs : Bytes) → ends_with_byte c (xs ++ d ∷ []) ≡ (d == c)
unfolding ends_with_byte
ends_with_byte-concat c d [] = refl
ends_with_byte-concat c d (x ∷ []) = refl
ends_with_byte-concat c d (x ∷ y ∷ xs) = ends_with_byte-concat c d (y ∷ xs)

-- A text that ends in a digit does not end in a bracket.
ends_in_digit :
    (front text : Bytes) → EndsInDigit text → ends_with_byte b']' (front ++ text) ≡ false
ends_in_digit front text (body, c, e, h) =
    rw (e, ← append_assoc front body (c ∷ []), ends_with_byte-concat) (ground arith)

EndsInDigit-cons : (b : ℕ) {text : Bytes} → EndsInDigit text → EndsInDigit (b ∷ text)
EndsInDigit-cons b (body, c, e, h) = (b ∷ body, c, ap (◌∷◌ b) e, h)

-- What `JoinHostPort` gives has a colon, and does not end in a bracket.
join_host_port_shape :
    (host : Bytes) (p : ℕ)
    → (contains_byte b':' (join_host_port host (decimal p)) ≡ true)
      × (ends_with_byte b']' (join_host_port host (decimal p)) ≡ false)
unfolding join_host_port contains_byte
join_host_port_shape host p =
    let port = decimal p in
    let ends = EndsInDigit-cons b':' (decimal_last p) in
    elim (Bool-cases (contains_byte b':' host)) [
      | inl colon ↦ rw colon (
        ground (arith, contains_byte-append b':' host (b']' ∷ b':' ∷ port)),
        ends_in_digit (b'[' ∷ host) (b']' ∷ b':' ∷ port) (EndsInDigit-cons b']' ends),
      )
      | inr plain ↦ rw plain (
        ground (arith, contains_byte-append b':' host (b':' ∷ port)),
        ends_in_digit host (b':' ∷ port) ends,
      )
    ]

with_default_port_shape :
    (addr : Bytes) (p : ℕ)
    → (contains_byte b':' (with_default_port addr p) ≡ true)
      × ((starts_with_byte b'[' (with_default_port addr p)
            && ends_with_byte b']' (with_default_port addr p))
          ≡ false)
unfolding with_default_port
with_default_port_shape addr p = ground (arith, join_host_port_shape addr p)

keeps_port :
    (addr : Bytes) (q : ℕ)
    → contains_byte b':' addr ≡ true
    → (starts_with_byte b'[' addr && ends_with_byte b']' addr) ≡ false
    → with_default_port addr q ≡ addr
unfolding with_default_port
keeps_port addr q hc hb = rw (hb, hc)

-- An address that has been given a port keeps it: a second default changes nothing.
with_default_port_idem :
    (addr : Bytes) (p q : ℕ)
    → with_default_port (with_default_port addr p) q ≡ with_default_port addr p
with_default_port_idem addr p q =
    let (hc, hb) = with_default_port_shape addr p in keeps_port (with_default_port addr p) q hc hb

before_colon-append :
    (host rest : Bytes)
    → contains_byte b':' host ≡ false
    → before_colon (host ++ b':' ∷ rest) ≡ host
unfolding before_colon contains_byte
before_colon-append [] rest h = refl
before_colon-append (b ∷ bs) rest h = ground (arith, before_colon-append bs rest)

-- A host with no colon, a bracketed one or not, is given the port behind a colon, and is the server
-- name that is cut from the result.
with_default_port_plain :
    (host : Bytes) (p : ℕ)
    → contains_byte b':' host ≡ false
    → (with_default_port host p ≡ host ++ b':' ∷ decimal p)
      × (server_name [] (with_default_port host p) ≡ host)
unfolding with_default_port join_host_port server_name
with_default_port_plain host p h =
    let joined : with_default_port host p ≡ host ++ b':' ∷ decimal p = ground arith in
    (joined, ap before_colon joined ∙ before_colon-append host (decimal p) h)

-- The server name cut from any text has no colon, so an IPv6 address is cut at its first one.
pub contains_byte-before_colon : (text : Bytes) → contains_byte b':' (before_colon text) ≡ false
unfolding before_colon contains_byte
contains_byte-before_colon [] = refl
contains_byte-before_colon (b ∷ bs) = ground (arith, contains_byte-before_colon bs)

contains_byte-brackets :
    (host : Bytes)
    → contains_byte b':' host ≡ true
    → contains_byte b':' (b'[' ∷ (host ++ b']' ∷ [])) ≡ true
unfolding contains_byte
contains_byte-brackets host h = ground (arith, contains_byte-append b':' host (b']' ∷ []))

-- An IPv6 address in brackets with no port is put into a second pair of brackets.
with_default_port_bracketed :
    (host : Bytes) (p : ℕ)
    → contains_byte b':' host ≡ true
    → with_default_port (b'[' ∷ (host ++ b']' ∷ [])) p
      ≡ b'[' ∷ b'[' ∷ (host ++ b']' ∷ b']' ∷ b':' ∷ decimal p)
unfolding with_default_port join_host_port
with_default_port_bracketed host p h =
    rw (ends_with_byte-concat b']' b']' (b'[' ∷ host), contains_byte-brackets host h)
      (rw (append_assoc host (b']' ∷ []) (b']' ∷ b':' ∷ decimal p)))
