-- ===== src/Jceks/Integrity/Reads.antt =====
-- No read of jceks/jceks.go loses or invents a byte.
use certigo.Base.{
  ℕ, zero, suc, List, [], ◌++◌, ◌≡◌, refl, ◌∙◌, Bytes, length, Result, value, error, Outcome, ok,
  err, panic, pure, fail, continue, ◌>>=◌, Bool, true, false, if◌then◌else◌, take-append-drop,
  append_assoc, arith,
}
use certigo.Base.Int.{ℤ, pos, negsuc}
use certigo.Jceks.Types.{Error, Stream}
use certigo.Jceks.Reader.{
  Read, advance, read_full, read_uint, read_utf, read_int32, read_uint32, read_sized, read_bytes,
  read_date,
}
use certigo.Jceks.Parse.{
  parse_header, on_certificate, parse_chain, private_key_body, trusted_cert_body,
}

-- All bytes of the input, those that went by first.
abbrev pub whole : Stream → Bytes
whole s = s.digested ++ s.unread

pub record Conserves {A : Type 0} (m : Read A) : Type 0 where
  pub run : (s : Stream) → whole (m s).1 ≡ whole s

module _ {A : Type 0} where
  pub Conserves-pure : (a : A) → Conserves (pure a)
  Conserves-pure a = record { run = λ s. refl }

  pub Conserves-fail : (e : Error) → Conserves (fail {A = A} e)
  Conserves-fail e = record { run = λ s. refl }

  pub Conserves-if :
      (b : Bool) {m k : Read A} → Conserves m → Conserves k → Conserves (if b then m else k)
  Conserves-if true hm hk = hm
  Conserves-if false hm hk = hk

  pub Conserves-on_certificate :
      {Cert : Type 0} (r : Result Bytes Cert) {f : Cert → Read A} {k : Read A}
      → ((c : Cert) → Conserves (f c))
      → Conserves k
      → Conserves (on_certificate r f k)
  Conserves-on_certificate (value c) hf hk = hf c
  Conserves-on_certificate (error e) hf hk = hk

module _ {A B : Type 0} where
  continue-Conserves :
      (f : A → Read B) (r : Outcome Error A) (s : Stream)
      → ((a : A) → Conserves (f a))
      → whole (continue f (r, s)).1 ≡ whole s
  continue-Conserves f (ok a) s h = (h a).run s
  continue-Conserves f (err e) s h = refl
  continue-Conserves f panic s h = refl

  pub Conserves-bind :
      (m : Read A) (f : A → Read B)
      → Conserves m
      → ((a : A) → Conserves (f a))
      → Conserves (m >>= f)
  Conserves-bind m f hm hf = record {
    run = λ s. continue-Conserves f (m s).0 (m s).1 hf ∙ hm.run s;
  }

advance-whole : (n : ℕ) (s : Stream) → whole (advance n s) ≡ whole s
advance-whole n s = rw (append_assoc, take-append-drop)

pub Conserves-read_full : (n : ℕ) → Conserves (read_full n)
unfolding read_full
Conserves-read_full n = record {
  run = λ s. ground (arith, advance-whole n s, advance-whole (length s.unread) s);
}

pub Conserves-read_uint : (size : ℕ) → Conserves (read_uint size)
unfolding read_uint
Conserves-read_uint size = Conserves-bind _ _ (Conserves-read_full size) (λ b. Conserves-pure _)

pub Conserves-read_utf : Conserves read_utf
unfolding read_utf
Conserves-read_utf = Conserves-bind _ _ (Conserves-read_uint 2) Conserves-read_full

pub Conserves-read_int32 : Conserves read_int32
unfolding read_int32
Conserves-read_int32 = Conserves-bind _ _ (Conserves-read_uint 4) (λ v. Conserves-pure _)

pub Conserves-read_sized : (n : ℤ) → Conserves (read_sized n)
unfolding read_sized
Conserves-read_sized (pos n) = Conserves-read_full n
Conserves-read_sized (negsuc n) = record { run = λ s. refl }

pub Conserves-read_bytes : Conserves read_bytes
unfolding read_bytes
Conserves-read_bytes = Conserves-bind _ _ Conserves-read_int32 Conserves-read_sized

pub Conserves-read_date : Conserves read_date
unfolding read_date
Conserves-read_date = Conserves-bind _ _ (Conserves-read_uint 8) (λ v. Conserves-pure _)

pub Conserves-parse_header : Conserves parse_header
unfolding parse_header read_uint32
Conserves-parse_header =
    Conserves-bind _ _ (Conserves-read_uint 4)
      (λ magic. Conserves-if _ (Conserves-fail _) (Conserves-read_uint 4))

module _ {Cert : Type 0} (parse_certificate : Bytes → Result Bytes Cert) where
  pub Conserves-parse_chain :
      (n : ℕ) (certs : List Cert) → Conserves (parse_chain parse_certificate n certs)
  unfolding parse_chain
  Conserves-parse_chain zero certs = Conserves-pure _
  Conserves-parse_chain (suc n) certs = Conserves-bind _ _ Conserves-read_utf (λ cert_type.
      Conserves-if _
        (Conserves-bind _ _ Conserves-read_bytes (λ cert_bytes.
          Conserves-on_certificate _ (λ cert. Conserves-parse_chain n _) (Conserves-pure _)))
        (Conserves-fail _))

  pub Conserves-private_key_body : Conserves (private_key_body parse_certificate)
  unfolding private_key_body
  Conserves-private_key_body = Conserves-bind _ _ Conserves-read_date (λ date.
      Conserves-bind _ _ Conserves-read_bytes (λ key.
        Conserves-bind _ _ Conserves-read_int32
          (λ n. Conserves-bind _ _ (Conserves-parse_chain _ []) (λ certs. Conserves-pure _))))

  pub Conserves-trusted_cert_body : Conserves (trusted_cert_body parse_certificate)
  unfolding trusted_cert_body
  Conserves-trusted_cert_body = Conserves-bind _ _ Conserves-read_date (λ date.
      Conserves-bind _ _ Conserves-read_utf (λ cert_type.
        Conserves-if _
          (Conserves-bind _ _ Conserves-read_bytes
            (λ cert_bytes. Conserves-on_certificate _ (λ c. Conserves-pure _) (Conserves-pure _)))
          (Conserves-fail _)))
