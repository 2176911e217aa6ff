-- ===== src/Cli/Dump/Prints.antt =====
-- cli/cli.go and lib/certs.go: what the command dump writes of a file.
use certigo.Base.{
  str, Bool, Bool-cases, inl, inr, is_empty, List, [], ◌∷◌, ◌++◌, append-nil, append_assoc, ◌≡◌,
  refl, ◌∙◌, ap, sym, true, Bytes, value, ok, continue,
}
use certigo.Certs.{Block, for_each, trim_space, error_from_errors}
use certigo.Certs.Formats.{format_for_file}
use certigo.Certs.Stream.{Input, Passwords, read_certs_from_stream, stream_headers}
use certigo.Certs.Stream.Listing.{holds, deliver, perform, listing_of}
use certigo.Certs.Stream.Listing.Refines.{read_certs_from_stream-listing_of}
use certigo.Certs.Inputs.{read_as_pem_from_files}
use certigo.Certs.Inputs.Errors.{done, next, read_inputs-Reads}
use certigo.Terminal.{Terminal}
use certigo.Cli.{Host, Session, exits, put, passwords, input_files}
use certigo.Cli.Dump.{DumpFlags, print_block, finish_dump, dump}

abbrev pub texts : (Block → Bytes) → List Block → Bytes
texts written [] = []
texts written (block ∷ blocks) = written block ++ texts written blocks

module _ {W : Type 0} (H : Host W) where
  finish_dump-pem : (s : Session W) → finish_dump H true (ok tt) s ≡ (exits 0, s)
  unfolding finish_dump
  finish_dump-pem s = elim (Bool-cases (is_empty s.result.certificates)) [
    | inl h ↦ rw (h, finish_dump) refl
    | inr h ↦ rw (h, finish_dump) refl
  ]

  module _ (written : Block → Bytes)
      (encodes : (block : Block)
        → H.pem_encode (record block { headers = [] }) ≡ value (written block)) where
    deliver-texts :
        (password : Passwords (Session W)) (format : Bytes) (blocks : List Block) (s : Session W)
        → deliver password (print_block H) format blocks s ≡ (ok tt, put (texts written blocks) s)
    unfolding for_each
    deliver-texts password format [] s =
        ap (λ output. (ok tt, record s { output = output })) (sym (append-nil s.output))
    deliver-texts password format (block ∷ blocks) s =
        let rest = deliver password (print_block H) format blocks in
        let first : print_block H block format s ≡ (ok tt, put (written block) s) =
          rw (encodes block, print_block) refl in
        ap (continue (λ _. rest)) first
        ∙ deliver-texts password format blocks (put (written block) s)
        ∙ ap (λ output. (ok tt, record s { output = output }))
            (append_assoc s.output (written block) (texts written blocks))

    read_as_pem_from_files-texts :
        (password : Passwords (Session W)) (kind : Bytes) (s : Session W) (file : Input)
        {found : Bytes} {blocks : List Block}
        → format_for_file file.content file.failure file.name kind ≡ value found
        → listing_of H.verifier.libraries password.read
            (stream_headers file.name)
            (trim_space found)
            file.content
            file.failure
          ≡ holds blocks
        → read_as_pem_from_files H.verifier.libraries password (file ∷ []) kind (print_block H) s
          ≡ (ok tt, put (texts written blocks) s)
    unfolding read_as_pem_from_files error_from_errors
    read_as_pem_from_files-texts password kind s file {found} {blocks} hk hl =
        let libraries = H.verifier.libraries in
        let streams : read_certs_from_stream libraries password file.content file.failure file.name
              found (print_block H) s
            ≡ (ok tt, put (texts written blocks) s) =
          (λ i.
            read_certs_from_stream-listing_of libraries password file.content file.failure file.name
              found (print_block H) i s)
          ∙ ap (λ listing. perform password (print_block H) (trim_space found) listing s) hl
          ∙ ap (continue (λ _ t. (ok tt, t)))
              (deliver-texts password (trim_space found) blocks s) in
        read_inputs-Reads libraries password kind (print_block H)
          (λ name. str "unable to guess file type for file " ++ name)
          (next {r = ok tt} hk streams (λ p. cc) done)

    -- With `--pem`, where a block without headers can be encoded: one file, whose format is known and
    -- which is complete, is written to the output as its blocks without their headers, in order; no
    -- more is written, and the exit code is 0.
    pub dump-texts :
        (tty : Terminal) (verbose : Bool) (flags : DumpFlags) (s : Session W) {file : Input}
        {found : Bytes} {blocks : List Block}
        → flags.pem ≡ true
        → input_files H flags.files ≡ value (file ∷ [])
        → format_for_file file.content file.failure file.name flags.kind ≡ value found
        → listing_of H.verifier.libraries
            (passwords H tty flags.password).read
            (stream_headers file.name)
            (trim_space found)
            file.content
            file.failure
          ≡ holds blocks
        → dump H tty verbose flags s ≡ (exits 0, put (texts written blocks) s)
    unfolding dump read_as_pem_from_files finish_dump
    dump-texts tty verbose flags s {file} {found} {blocks} hp hf hk hl =
        rw
          (
            hp,
            hf,
            dump,
            read_as_pem_from_files-texts (passwords H tty flags.password) flags.kind s file hk hl,
          )
          (finish_dump-pem (put (texts written blocks) s))
