-- ===== src/Certs/Stream/Listing/Tampered.antt =====
-- lib/certs.go and jceks/jceks.go: a key store file with another digest than its own.
use certigo.Base.{
  ◌<◌, ◌^◌, length, List, [], ◌++◌, ◌≡◌, ◌≢◌, ◌∙◌, ap, none, Bytes, str, bytes_eq, value, err, All,
}
use certigo.Jceks.Types.{tampered}
use certigo.Jceks.Encoding.{Item, body_field, Fits}
use certigo.Jceks.Encoding.Load.{digest_of, load-encoding_tampered}
use certigo.X509.{Certificate}
use certigo.Certs.{for_each, trim_space, trim_left, trim_right}
use certigo.Certs.Texts.{key_store_error}
use certigo.Certs.Stream.{Libraries, Passwords, OnBlock, read_certs_from_stream, stream_headers}
use certigo.Certs.Stream.Listing.{failed, ends, asking, perform, listing_of}
use certigo.Certs.Stream.Listing.Refines.{read_certs_from_stream-listing_of}

module _ (L : Libraries) {S : Type 0} (password : Passwords S) (filename secret : Bytes)
    (items : List (Item Certificate)) (digest rest : Bytes) where
  abbrev tampered_text : Bytes
  tampered_text = str "unable to parse keystore: " ++ (key_store_error tampered ++ str "\n")

  listing_of-tampered :
      password.read [] ≡ value secret
      → length items < 2 ^ 31
      → All (Fits L.parse_certificate) items
      → length digest ≡ length (digest_of L.sha1 secret items)
      → digest ≢ digest_of L.sha1 secret items
      → listing_of L password.read
          (stream_headers filename)
          (trim_space (str "JCEKS"))
          (body_field items ++ (digest ++ rest))
          none
        ≡ ends (failed tampered_text)
  unfolding listing_of trim_space trim_left trim_right bytes_eq
  listing_of-tampered answer short fits same_length other = rw (
    answer,
    asking,
    load-encoding_tampered L.parse_certificate L.sha1 secret items digest rest short fits
        same_length other,
  )

  -- A key store file whose lengths fit their fields, with another digest of the same length than that
  -- under the password that the prompt is answered with, and anything behind it: reading it as JCEKS
  -- ends in the error that says so, and leaves the caller's state as it was, as no block is given.
  pub read_certs_from_stream-tampered :
      password.read [] ≡ value secret
      → length items < 2 ^ 31
      → All (Fits L.parse_certificate) items
      → length digest ≡ length (digest_of L.sha1 secret items)
      → digest ≢ digest_of L.sha1 secret items
      → (callback : OnBlock S) (s : S)
      → read_certs_from_stream L password
          (body_field items ++ (digest ++ rest))
          none
          filename
          (str "JCEKS")
          callback
          s
        ≡ (err (str "unable to parse keystore: " ++ (key_store_error tampered ++ str "\n")), s)
  unfolding for_each
  read_certs_from_stream-tampered answer short fits same_length other callback s =
      (λ i.
        read_certs_from_stream-listing_of L password (body_field items ++ (digest ++ rest)) none
          filename (str "JCEKS") callback i s)
      ∙ ap (λ listing. perform password callback (trim_space (str "JCEKS")) listing s)
          (listing_of-tampered answer short fits same_length other)
