-- ===== src/Jceks/Integrity/Steps.antt =====
-- Nor does a step of the parser of jceks/jceks.go.
use certigo.Base.{
  ℕ, zero, suc, List, ◌≡◌, refl, ◌∙◌, Option, none, some, Bytes, Result, Outcome, ok, err, panic, M,
  pure, fail, continue, ◌>>=◌, Bool, true, false, if◌then◌else◌,
}
use certigo.Base.Int.{ℤ, pos, negsuc}
use certigo.Jceks.Types.{Error, Date, State}
use certigo.Jceks.Reader.{Read}
use certigo.Jceks.Parse.{
  reading, keep_private_key, keep_trusted_cert, parse_private_key, parse_trusted_cert, parse_entry,
  parse_entries,
}
use certigo.Jceks.Integrity.Reads.{
  whole, Conserves, Conserves-private_key_body, Conserves-read_int32, Conserves-read_utf,
  Conserves-trusted_cert_body,
}

-- The same of the parser's steps, which also change the store.
pub record Keeps {Cert A : Type 0} (m : M (State Cert) Error A) : Type 0 where
  pub run : (s : State Cert) → whole (m s).1.stream ≡ whole s.stream

module _ {Cert A : Type 0} where
  pub Keeps-reading : {m : Read A} → Conserves m → Keeps (reading {Cert = Cert} m)
  Keeps-reading h = record { run = λ s. h.run s.stream }

  pub Keeps-pure : (a : A) → Keeps {Cert = Cert} (pure a)
  Keeps-pure a = record { run = λ s. refl }

  pub Keeps-fail : (e : Error) → Keeps {Cert = Cert} (fail {A = A} e)
  Keeps-fail e = record { run = λ s. refl }

  pub Keeps-if :
      (b : Bool) {m k : M (State Cert) Error A} → Keeps m → Keeps k → Keeps (if b then m else k)
  Keeps-if true hm hk = hm
  Keeps-if false hm hk = hk

module _ {Cert A B : Type 0} where
  continue-Keeps :
      (f : A → M (State Cert) Error B) (r : Outcome Error A) (s : State Cert)
      → ((a : A) → Keeps (f a))
      → whole (continue f (r, s)).1.stream ≡ whole s.stream
  continue-Keeps f (ok a) s h = (h a).run s
  continue-Keeps f (err e) s h = refl
  continue-Keeps f panic s h = refl

  pub Keeps-bind :
      (m : M (State Cert) Error A) (f : A → M (State Cert) Error B)
      → Keeps m
      → ((a : A) → Keeps (f a))
      → Keeps (m >>= f)
  Keeps-bind m f hm hf = record { run = λ s. continue-Keeps f (m s).0 (m s).1 hf ∙ hm.run s }

module _ {Cert : Type 0} (parse_certificate : Bytes → Result Bytes Cert) where
  pub Keeps-keep_private_key :
      (alias : Bytes) (body : Date × Bytes × Option (List Cert))
      → Keeps (keep_private_key alias body)
  Keeps-keep_private_key alias (date, key, some certs) = record { run = λ s. refl }
  Keeps-keep_private_key alias (date, key, none) = record { run = λ s. refl }

  pub Keeps-keep_trusted_cert :
      (alias : Bytes) (body : Date × Option Cert) → Keeps (keep_trusted_cert alias body)
  Keeps-keep_trusted_cert alias (date, some cert) = record { run = λ s. refl }
  Keeps-keep_trusted_cert alias (date, none) = record { run = λ s. refl }

  pub Keeps-parse_private_key : Keeps (parse_private_key parse_certificate)
  unfolding parse_private_key
  Keeps-parse_private_key = Keeps-bind _ _ (Keeps-reading Conserves-read_utf) (λ alias.
      Keeps-bind _ _ (Keeps-reading (Conserves-private_key_body parse_certificate))
        (Keeps-keep_private_key alias))

  pub Keeps-parse_trusted_cert : Keeps (parse_trusted_cert parse_certificate)
  unfolding parse_trusted_cert
  Keeps-parse_trusted_cert = Keeps-bind _ _ (Keeps-reading Conserves-read_utf) (λ alias.
      Keeps-bind _ _ (Keeps-reading (Conserves-trusted_cert_body parse_certificate))
        (Keeps-keep_trusted_cert alias))

  pub Keeps-parse_entry : (tag : ℤ) → Keeps (parse_entry parse_certificate tag)
  unfolding parse_entry
  Keeps-parse_entry (pos n) =
      Keeps-if _ Keeps-parse_private_key
        (Keeps-if _ Keeps-parse_trusted_cert (Keeps-if _ (Keeps-fail _) (Keeps-fail _)))
  Keeps-parse_entry (negsuc n) = Keeps-fail _

  pub Keeps-parse_entries : (n : ℕ) → Keeps (parse_entries parse_certificate n)
  unfolding parse_entries
  Keeps-parse_entries zero = Keeps-pure _
  Keeps-parse_entries (suc n) =
      Keeps-bind _ _ (Keeps-reading Conserves-read_int32)
        (λ tag. Keeps-bind _ _ (Keeps-parse_entry tag) (λ _. Keeps-parse_entries n))
