-- ===== src/Jceks/Access/Unique.antt =====
-- jceks/jceks.go: a parsed key store holds no name twice.
use certigo.Base.{
  ℕ, zero, suc, List, ◌≡◌, subst, Option, none, some, Bytes, Result, Outcome, ok, err, panic, M,
  pure, fail, continue, ◌>>=◌, Bool, true, false, if◌then◌else◌,
}
use certigo.Base.Int.{ℤ, pos, negsuc}
use certigo.Base.Dict.{NodupKeys, insert-NodupKeys}
use certigo.Jceks.Types.{Error, Date, KeyStore, State}
use certigo.Jceks.Reader.{Read}
use certigo.Jceks.Parse.{
  reading, keep_private_key, keep_trusted_cert, parse_private_key, parse_trusted_cert, parse_entry,
  parse_entries, parse, start, loaded, load_from_reader,
}

abbrev Unique : {Cert : Type 0} → State Cert → Type 0
Unique s = NodupKeys s.store.entries

abbrev UniqueResult : {Cert : Type 0} → Outcome Error (KeyStore Cert) → Type 0
UniqueResult (ok ks) = NodupKeys ks.entries
UniqueResult (err e) = Unit {0}
UniqueResult panic = Unit {0}

record KeepsUnique {Cert A : Type 0} (m : M (State Cert) Error A) : Type 0 where
  run : (s : State Cert) → Unique s → Unique (m s).1

module _ {Cert A : Type 0} where
  KeepsUnique-reading : (m : Read A) → KeepsUnique (reading {Cert = Cert} m)
  KeepsUnique-reading m = record { run = λ s u. u }

  KeepsUnique-pure : (a : A) → KeepsUnique {Cert = Cert} (pure a)
  KeepsUnique-pure a = record { run = λ s u. u }

  KeepsUnique-fail : (e : Error) → KeepsUnique {Cert = Cert} (fail {A = A} e)
  KeepsUnique-fail e = record { run = λ s u. u }

  KeepsUnique-if :
      (b : Bool) {m k : M (State Cert) Error A}
      → KeepsUnique m
      → KeepsUnique k
      → KeepsUnique (if b then m else k)
  KeepsUnique-if true hm hk = hm
  KeepsUnique-if false hm hk = hk

module _ {Cert A B : Type 0} where
  continue-Unique :
      (f : A → M (State Cert) Error B) (r : Outcome Error A) (s : State Cert)
      → ((a : A) → KeepsUnique (f a))
      → Unique s
      → Unique (continue f (r, s)).1
  continue-Unique f (ok a) s h u = (h a).run s u
  continue-Unique f (err e) s h u = u
  continue-Unique f panic s h u = u

  KeepsUnique-bind :
      {m : M (State Cert) Error A} {f : A → M (State Cert) Error B}
      → KeepsUnique m
      → ((a : A) → KeepsUnique (f a))
      → KeepsUnique (m >>= f)
  KeepsUnique-bind {m} {f} hm hf = record {
    run = λ s u. continue-Unique f (m s).0 (m s).1 hf (hm.run s u);
  }

module _ {Cert : Type 0} (parse_certificate : Bytes → Result Bytes Cert) where
  KeepsUnique-keep_private_key :
      (alias : Bytes) (body : Date × Bytes × Option (List Cert))
      → KeepsUnique (keep_private_key alias body)
  KeepsUnique-keep_private_key alias (date, key, some certs) = record {
    run = λ s. insert-NodupKeys alias _ s.store.entries;
  }
  KeepsUnique-keep_private_key alias (date, key, none) = record { run = λ s u. u }

  KeepsUnique-keep_trusted_cert :
      (alias : Bytes) (body : Date × Option Cert) → KeepsUnique (keep_trusted_cert alias body)
  KeepsUnique-keep_trusted_cert alias (date, some cert) = record {
    run = λ s. insert-NodupKeys alias _ s.store.entries;
  }
  KeepsUnique-keep_trusted_cert alias (date, none) = record { run = λ s u. u }

  ruleset unique_rules = (
    KeepsUnique-reading, KeepsUnique-pure, KeepsUnique-fail, KeepsUnique-if, KeepsUnique-bind,
    KeepsUnique-keep_private_key, KeepsUnique-keep_trusted_cert,
  )

  KeepsUnique-parse_entry : (tag : ℤ) → KeepsUnique (parse_entry parse_certificate tag)
  unfolding parse_entry parse_private_key parse_trusted_cert
  KeepsUnique-parse_entry (pos n) = search unique_rules depth 9
  KeepsUnique-parse_entry (negsuc n) = KeepsUnique-fail _

  KeepsUnique-parse_entries : (n : ℕ) → KeepsUnique (parse_entries parse_certificate n)
  unfolding parse_entries
  KeepsUnique-parse_entries zero = KeepsUnique-pure _
  KeepsUnique-parse_entries (suc n) =
      KeepsUnique-bind (KeepsUnique-reading _)
        (λ tag. KeepsUnique-bind (KeepsUnique-parse_entry tag) (λ _. KeepsUnique-parse_entries n))

  module _ (sha1 : Bytes → Bytes) (password : Option Bytes) where
    KeepsUnique-parse : KeepsUnique (parse parse_certificate sha1 password)
    unfolding parse
    KeepsUnique-parse = search (unique_rules, KeepsUnique-parse_entries) depth 9

    loaded-Unique :
        (r : Outcome Error (Unit {0}) × State Cert) {ks : KeyStore Cert}
        → Unique r.1
        → loaded r ≡ ok ks
        → NodupKeys ks.entries
    loaded-Unique (ok x, s) u e = subst UniqueResult e u
    loaded-Unique (err x, s) u e = cc
    loaded-Unique (panic, s) u e = cc

    -- A key store that loads, with or without a password, holds no name twice.
    pub load-NodupKeys :
        (input : Bytes) {ks : KeyStore Cert}
        → load_from_reader parse_certificate sha1 input password ≡ ok ks
        → NodupKeys ks.entries
    unfolding load_from_reader
    load-NodupKeys input = loaded-Unique _ ((KeepsUnique-parse).run (start input) tt)
