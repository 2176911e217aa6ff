-- ===== src/Jceks/Integrity.antt =====
-- jceks/jceks.go: the digest that `Parse` computes is that of everything in front of the digest that
-- it compares with.
mod Reads
mod Steps
use certigo.Base.{
  ℕ, zero, suc, List, [], ◌∷◌, ◌++◌, ◌≡◌, refl, sym, ap, ◌∙◌, Option, none, some, Bytes, bytes_eq,
  bytes_eq_iff, length, take, drop, Result, value, error, Outcome, ok, err, panic, M, pure, fail,
  crash, continue, ◌>>=◌, ◌>>◌, Bool, true, false, if◌then◌else◌, take-append-drop, append_assoc,
  arith, Bool-cases, inl, inr,
}
use certigo.Base.Int.{ℤ, pos, negsuc}
use certigo.Jceks.Types.{Error, Date, KeyStore, Stream, State}
use certigo.Jceks.Reader.{
  Read, advance, read_full, read_uint, read_utf, read_int32, read_uint32, read_sized, read_bytes,
  read_date,
}
use certigo.Jceks.Parse.{
  pre_key, parse_header, reading, put_entry, on_certificate, keep_private_key, keep_trusted_cert,
  parse_chain, private_key_body, parse_private_key, trusted_cert_body, parse_trusted_cert,
  parse_entry, parse_entries, check_digest, verify_digest, parse, start, loaded, load_from_reader,
}
use Reads.{whole, Conserves-parse_header, Conserves-read_int32}
use Steps.{Keeps, Keeps-parse_entries, Keeps-reading}

-- The input is a body, the digest of the password and the body, and whatever follows.
abbrev pub IsSigned : (Bytes → Bytes) → Bytes → Bytes → Type 0
IsSigned sha1 password input =
    (body : Bytes) × (rest : Bytes) × (input ≡ body ++ (sha1 (pre_key password ++ body) ++ rest))

module _ (sha1 : Bytes → Bytes) (password : Bytes) where
  abbrev expected : Stream → Bytes
  expected s = sha1 (pre_key password ++ s.digested)

  check_digest-matches :
      (s : Stream) {t : Stream}
      → check_digest sha1 password s ≡ (ok tt, t)
      → expected s ≡ take (length (expected s)) s.unread
  unfolding check_digest read_full
  check_digest-matches s e =
      ground (arith, bytes_eq_iff (expected s) (take (length (expected s)) s.unread))

  check_digest-IsSigned :
      (s : Stream) {t : Stream}
      → check_digest sha1 password s ≡ (ok tt, t)
      → IsSigned sha1 password (whole s)
  check_digest-IsSigned s e =
      let n = length (expected s) in
      let rest = drop n s.unread in
      (
        s.digested,
        rest,
        ap (λ d. s.digested ++ d) (sym (take-append-drop n s.unread))
            ∙ ap (λ d. s.digested ++ (d ++ rest)) (sym (check_digest-matches s e)),
      )

module _ {Cert : Type 0} (sha1 : Bytes → Bytes) (password : Bytes) where
  record Checks {A : Type 0} (m : M (State Cert) Error A) : Type 0 where
    run : {a : A} {s t : State Cert} → m s ≡ (ok a, t) → IsSigned sha1 password (whole s.stream)

  Checks-if :
      {A : Type 0} (b : Bool) {m k : M (State Cert) Error A}
      → Checks m
      → Checks k
      → Checks (if b then m else k)
  Checks-if true hm hk = hm
  Checks-if false hm hk = hk

  Checks-fail : {A : Type 0} (e : Error) → Checks (fail {A = A} e)
  Checks-fail e = record { run = λ h. cc h }

  continue-Checks :
      {A B : Type 0} (f : A → M (State Cert) Error B) (r : Outcome Error A) (s : State Cert) {b : B}
      {t : State Cert}
      → ((a : A) → Checks (f a))
      → continue f (r, s) ≡ (ok b, t)
      → IsSigned sha1 password (whole s.stream)
  continue-Checks f (ok a) s h e = (h a).run e
  continue-Checks f (err x) s h e = cc
  continue-Checks f panic s h e = cc

  Checks-bind :
      {A B : Type 0} (m : M (State Cert) Error A) (f : A → M (State Cert) Error B)
      → Keeps m
      → ((a : A) → Checks (f a))
      → Checks (m >>= f)
  Checks-bind m f hm hf = record {
    run = λ {s} e. rw (← hm.run s) (continue-Checks f (m s).0 (m s).1 hf e);
  }

  Checks-verify_digest : Checks (reading (verify_digest sha1 (some password)))
  Checks-verify_digest = record {
    run = λ {s = s} e.
        check_digest-IsSigned sha1 password s.stream {t = (check_digest sha1 password s.stream).1}
          (λ i. ((e i).0, (check_digest sha1 password s.stream).1));
  }

  loaded-eq-ok :
      (r : Outcome Error (Unit {0}) × State Cert) {store : KeyStore Cert}
      → loaded r ≡ ok store
      → r ≡ (ok tt, r.1)
  loaded-eq-ok (ok x, s) e = refl
  loaded-eq-ok (err x, s) e = cc
  loaded-eq-ok (panic, s) e = cc

  module _ (parse_certificate : Bytes → Result Bytes Cert) where
    Checks-parse : Checks (parse parse_certificate sha1 (some password))
    unfolding parse
    Checks-parse = Checks-bind _ _ (Keeps-reading Conserves-parse_header) (λ version.
        Checks-if _
          (Checks-bind _ _ (Keeps-reading Conserves-read_int32) (λ count.
            Checks-bind _ _ (Keeps-parse_entries parse_certificate _) (λ _. Checks-verify_digest)))
          (Checks-fail _))

    -- What loads under a password is signed with it, whatever else the input holds.
    pub load-IsSigned :
        (input : Bytes) {store : KeyStore Cert}
        → load_from_reader parse_certificate sha1 input (some password) ≡ ok store
        → IsSigned sha1 password input
    unfolding load_from_reader
    load-IsSigned input e =
        (Checks-parse).run
          (loaded-eq-ok (parse parse_certificate sha1 (some password) (start input)) e)
