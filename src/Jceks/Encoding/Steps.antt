-- ===== src/Jceks/Encoding/Steps.antt =====
-- Each step of the parser of jceks/jceks.go on the field that it reads.
use certigo.Base.{
  ℕ, ◌^◌, ◌<◌, List, [], ◌∷◌, ◌++◌, ◌≡◌, refl, subst, some, Bytes, length, All, map, Result, ok, M,
  pure, ◌>>=◌, ◌>>◌, arith, append-nil, append_assoc, bytes_eq,
}
use certigo.Base.Int.{pos}
use certigo.Base.Dict.{insert}
use certigo.Jceks.Types.{Error, Entry, KeyStore, State}
use certigo.Jceks.Reader.{Read}
use certigo.Jceks.Parse.{
  x509_type, reading, put_entry, parse_chain, parse_private_key, parse_trusted_cert, parse_entry,
  private_key_body, trusted_cert_body, parse_entries,
}
use certigo.Jceks.Takes.{
  before, after, Takes, Takes-pure, Takes-bind, Takes-map, Takes-decoded, word, blob,
  Takes-read_utf, Takes-read_int32, Takes-read_bytes, Takes-read_date,
}
use certigo.Jceks.Encoding.{
  Der, Item, key_item, cert_item, cert_field, chain_field, item_tag, item_body, item_field,
  items_field, date_of, add_item, add_items, FitsDer, Fits,
}

module _ {Cert : Type 0} where
  -- `m` takes these bytes and changes the store by `f`.
  pub record Does (m : M (State Cert) Error (Unit {0})) (bytes : Bytes)
      (f : KeyStore Cert → KeyStore Cert) : Type 0 where
    pub run :
        (rest digested : Bytes) (store : KeyStore Cert)
        → m (record { stream = before bytes rest digested; store = store })
          ≡ (ok tt, record { stream = after bytes rest digested; store = f store })

  Does-reading :
      {A : Type 0} {r : Read A} (k : A → M (State Cert) Error (Unit {0})) {xs ys : Bytes} {a : A}
      {f : KeyStore Cert → KeyStore Cert}
      → Takes r xs a
      → Does (k a) ys f
      → Does (reading r >>= k) (xs ++ ys) f
  Does-reading k {xs} {ys} h d = record {
    run = λ rest digested store. rw (
      append_assoc xs ys rest,
      h.run (ys ++ rest) digested,
      d.run rest (digested ++ xs) store,
      append_assoc digested xs ys,
    );
  }

  Does-seq :
      {m k : M (State Cert) Error (Unit {0})} {xs ys : Bytes} {f g : KeyStore Cert → KeyStore Cert}
      → Does m xs f
      → Does k ys g
      → Does (m >> k) (xs ++ ys) (λ s. g (f s))
  Does-seq {xs} {ys} {f} h d = record {
    run = λ rest digested store. rw (
      append_assoc xs ys rest,
      h.run (ys ++ rest) digested store,
      d.run rest (digested ++ xs) (f store),
      append_assoc digested xs ys,
    );
  }

  Does-last :
      {A : Type 0} {r : Read A} (k : A → M (State Cert) Error (Unit {0})) {xs : Bytes} {a : A}
      {f : KeyStore Cert → KeyStore Cert}
      → Takes r xs a
      → Does (k a) [] f
      → Does (reading r >>= k) xs f
  Does-last {r} k {xs} {f} h d =
      subst (λ ys. Does (reading r >>= k) ys f) (append-nil xs) (Does-reading k h d)

  Does-pure : Does (pure tt) [] (λ s. s)
  Does-pure = record { run = λ rest digested store. rw append-nil }

  Does-put_entry :
      (alias : Bytes) (e : Entry Cert)
      → Does (put_entry alias e) [] (λ s. record { entries = insert alias e s.entries })
  Does-put_entry alias e = record { run = λ rest digested store. rw append-nil }

module _ {Cert : Type 0} (parse_certificate : Bytes → Result Bytes Cert) where
  Takes-chain :
      (todo : List (Der Cert)) (seen : List Cert)
      → All (FitsDer parse_certificate) todo
      → Takes
          (parse_chain parse_certificate (length todo) seen)
          (chain_field todo)
          (some (seen ++ map (λ c. c.cert) todo))
  unfolding parse_chain chain_field bytes_eq
  Takes-chain [] seen h = rw append-nil (Takes-pure _)
  Takes-chain (c ∷ cs) seen (h, hs) = rw append_assoc (
      Takes-bind _ (Takes-read_utf x509_type (omega arith)) (
        Takes-bind _ (Takes-read_bytes c.raw h.0) (
          rw h.1 (
            rw (← append_assoc seen (c.cert ∷ []) (map (λ x. x.cert) cs))
              (Takes-chain cs (seen ++ c.cert ∷ []) hs)))))

  Takes-private_key_body :
      (date : ℕ) (key : Bytes) (certs : List (Der Cert))
      → date < 2 ^ 64
      → length key < 2 ^ 31
      → length certs < 2 ^ 31
      → All (FitsDer parse_certificate) certs
      → Takes
          (private_key_body parse_certificate)
          (word 8 date ++ (blob key ++ (word 4 (length certs) ++ chain_field certs)))
          (date_of date, key, some (map (λ c. c.cert) certs))
  unfolding private_key_body
  Takes-private_key_body date key certs hd hk hn hc = Takes-bind _ (Takes-read_date date hd) (
      Takes-bind _ (Takes-read_bytes key hk) (
        Takes-bind _ (Takes-read_int32 (length certs) hn)
          (Takes-map (λ found. (date_of date, key, found)) (Takes-chain certs [] hc))))

  Takes-trusted_cert_body :
      (date : ℕ) (c : Der Cert)
      → date < 2 ^ 64
      → FitsDer parse_certificate c
      → Takes
          (trusted_cert_body parse_certificate)
          (word 8 date ++ cert_field c)
          (date_of date, some c.cert)
  unfolding trusted_cert_body bytes_eq
  Takes-trusted_cert_body date c hd (hr, hc) = Takes-bind _ (Takes-read_date date hd) (
      Takes-bind _ (Takes-read_utf x509_type (omega arith))
        (Takes-decoded _ (Takes-read_bytes c.raw hr) (rw hc refl)))

  Does-item :
      (i : Item Cert)
      → Fits parse_certificate i
      → Does (parse_entry parse_certificate (pos (item_tag i))) (item_body i) (add_item i)
  unfolding parse_entry parse_private_key parse_trusted_cert item_body
  Does-item (key_item alias date key certs) (ha, hd, hk, hn, hc) =
      Does-reading _ (Takes-read_utf alias ha)
        (Does-last _ (Takes-private_key_body date key certs hd hk hn hc) (Does-put_entry alias _))
  Does-item (cert_item alias date cert) (ha, hd, hc) =
      Does-reading _ (Takes-read_utf alias ha)
        (Does-last _ (Takes-trusted_cert_body date cert hd hc) (Does-put_entry alias _))

  item_tag-lt : (i : Item Cert) → item_tag i < 2 ^ 31
  item_tag-lt (key_item _ _ _ _) = omega arith
  item_tag-lt (cert_item _ _ _) = omega arith

  pub Does-items :
      (items : List (Item Cert))
      → All (Fits parse_certificate) items
      → Does (parse_entries parse_certificate (length items)) (items_field items) (add_items items)
  unfolding parse_entries items_field item_field add_items
  Does-items [] h = Does-pure
  Does-items (i ∷ is) (h, hs) = rw append_assoc (
      Does-reading _ (Takes-read_int32 (item_tag i) (item_tag-lt i))
        (Does-seq (Does-item i h) (Does-items is hs)))
