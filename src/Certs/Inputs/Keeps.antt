-- ===== src/Certs/Inputs/Keeps.antt =====
-- lib/certs.go: the reading of all inputs changes the caller's state by calls of its callback alone.
use certigo.Base.{
  ◌≡◌, error, List, [], ◌∷◌, Option, none, some, Result-cases, inl, inr, Bytes, Outcome, ok, err,
  panic, M,
}
use certigo.X509.{Certificate}
use certigo.Certs.{Block, error_from_errors}
use certigo.Certs.Formats.{format_for_file}
use certigo.Certs.Stream.{
  Libraries, Passwords, Input, OnBlock, OnCertificate, read_certs_from_stream,
}
use certigo.Certs.Stream.Keeps.{Keeps, pem_to_x509-Keeps, read_certs_from_stream-Keeps}
use certigo.Certs.Inputs.{
  finish, keep_error, read_inputs, read_as_pem_from_files, read_as_x509_from_files,
}

module _ {S : Type 0} (P : S → Type 0) (L : Libraries) (password : Passwords S)
    (gives_up : (prompt e : Bytes)
      → password.read prompt ≡ error e
      → (s : S) → P s
      → P (password.give_up e s)) where
  finish-kept : (failure : Option Bytes) (s : S) → P s → P (finish L password failure s).1
  finish-kept none s h = h
  finish-kept (some e) s h = h

  keep_error-kept :
      (next : List Bytes → M S Bytes (Unit {0})) (errs : List Bytes)
      (r : Outcome Bytes (Unit {0}) × S)
      → ((kept : List Bytes) (s : S) → P s → P (next kept s).1)
      → P r.1
      → P (keep_error L password next errs r).1
  keep_error-kept next errs (ok _, s) hn h = hn errs s h
  keep_error-kept next errs (err e, s) hn h = hn _ s h
  keep_error-kept next errs (panic, s) hn h = h

  module _ (refused : Bytes → Bytes) (format : Bytes) (callback : OnBlock S) where
    -- Whatever the inputs, their formats and their errors: what holds of the caller's state and
    -- holds after each call of the callback and where no password is given, as it held before, holds when the reading ends,
    -- however it ends.
    pub read_inputs-kept :
        ((block : Block) (found : Bytes) → Keeps P (callback block found))
        → (inputs : List Input) (errs : List Bytes) (s : S) → P s
        → P (read_inputs L password refused format callback inputs errs s).1
    unfolding read_inputs
    read_inputs-kept calls [] errs s h = finish-kept (error_from_errors errs) s h
    read_inputs-kept calls (input ∷ inputs) errs s h =
        elim (Result-cases (format_for_file input.content input.failure input.name format)) [
          | inl (e, hf) ↦ rw (hf, read_inputs) h
          | inr (found, hf) ↦
              rw (hf, read_inputs)
                (keep_error-kept (read_inputs L password refused format callback inputs) errs
                  (read_certs_from_stream L password input.content input.failure input.name found
                    callback s)
                  (read_inputs-kept calls inputs)
                  ((read_certs_from_stream-Keeps P L password callback gives_up calls input.content
                      input.failure input.name found).kept
                    s h))
        ]

  pub read_as_pem_from_files-kept :
      (callback : OnBlock S)
      → ((block : Block) (found : Bytes) → Keeps P (callback block found))
      → (files : List Input) (format : Bytes) (s : S) → P s
      → P (read_as_pem_from_files L password files format callback s).1
  unfolding read_as_pem_from_files
  read_as_pem_from_files-kept callback calls files format s h =
      read_inputs-kept _ format callback calls files [] s h

  pub read_as_x509_from_files-kept :
      (warn : M S Bytes (Unit {0})) (callback : OnCertificate S)
      → Keeps P warn
      → ((cert : Option Certificate) (found : Bytes) (e : Option Bytes)
          → Keeps P (callback cert found e))
      → (files : List Input) (format : Bytes) (s : S) → P s
      → P (read_as_x509_from_files L password warn files format callback s).1
  unfolding read_as_x509_from_files
  read_as_x509_from_files-kept warn callback warns calls files format s h =
      read_inputs-kept _ format _ (pem_to_x509-Keeps P L warn callback warns calls) files [] s h
