-- ===== src/Certs/Inputs/Errors.antt =====
-- lib/certs.go: what becomes of the errors of several inputs.
use certigo.Base.{
  List, [], ◌∷◌, ◌++◌, ◌≡◌, refl, ◌∙◌, ap, sym, Bytes, value, Outcome, ok, err, panic, M, ◌≢◌,
  append-nil, append_assoc,
}
use certigo.Certs.{error_from_errors}
use certigo.Certs.Formats.{format_for_file}
use certigo.Certs.Stream.{Libraries, Passwords, Input, OnBlock, read_certs_from_stream}
use certigo.Certs.Inputs.{finish, keep_error, read_inputs}

-- The error of an outcome, as a list.
abbrev pub errors_of : Outcome Bytes (Unit {0}) → List Bytes
errors_of (ok u) = []
errors_of (err e) = e ∷ []
errors_of panic = []

module _ (L : Libraries) {S : Type 0} (password : Passwords S) (format : Bytes) where
  module _ (callback : OnBlock S) where
    -- The inputs one after the other, each from the state that the one before it left: all errors,
    -- and the last state. A format is known for each, and none panics.
    pub data Reads : List Input → S → List Bytes → S → Type 0 where
      done : {s : S} → Reads [] s [] s
      next :
          {input : Input} {inputs : List Input} {s s₁ s₂ : S} {found : Bytes}
          {r : Outcome Bytes (Unit {0})} {errs : List Bytes}
          → format_for_file input.content input.failure input.name format ≡ value found
          → read_certs_from_stream L password input.content input.failure input.name found callback
              s
            ≡ (r, s₁)
          → r ≢ panic
          → Reads inputs s₁ errs s₂
          → Reads (input ∷ inputs) s (errors_of r ++ errs) s₂

    module _ (refused : Bytes → Bytes) where
      abbrev run : List Input → List Bytes → M S Bytes (Unit {0})
      run = read_inputs L password refused format callback

      keep_error-errors_of :
          (inputs : List Input) (errs : List Bytes) (r : Outcome Bytes (Unit {0})) (s : S)
          → r ≢ panic
          → keep_error L password (run inputs) errs (r, s) ≡ run inputs (errs ++ errors_of r) s
      keep_error-errors_of inputs errs (ok tt) s h =
          ap (λ es. run inputs es s) (sym (append-nil errs))
      keep_error-errors_of inputs errs (err e) s h = refl
      keep_error-errors_of inputs errs panic s h = absurd (h refl)

      read_inputs-keeps :
          (inputs : List Input) (s s₂ : S) (errs kept : List Bytes)
          → Reads inputs s errs s₂
          → run inputs kept s ≡ finish L password (error_from_errors (kept ++ errs)) s₂
      unfolding read_inputs
      read_inputs-keeps _ _ _ _ kept done = rw append-nil
      read_inputs-keeps _ _ _ _ kept
            (next {input} {inputs} {s} {s₁} {s₂} {found} {r} {errs} hf hr hp more) =
          rw (hf, read_inputs, hr)
            (keep_error-errors_of inputs kept r s₁ hp
              ∙ read_inputs-keeps inputs s₁ s₂ errs (kept ++ errors_of r) more
              ∙ ap (λ es. finish L password (error_from_errors es) s₂)
                  (append_assoc kept (errors_of r) errs))

      pub read_inputs-Reads :
          {inputs : List Input} {s s₂ : S} {errs : List Bytes}
          → Reads inputs s errs s₂
          → read_inputs L password refused format callback inputs [] s
            ≡ finish L password (error_from_errors errs) s₂
      read_inputs-Reads reads = read_inputs-keeps _ _ _ _ [] reads
