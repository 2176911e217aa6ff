-- ===== src/Cli/Dump/Shows.antt =====
-- cli/cli.go and lib/certs.go: what the command dump shows of a file.
use certigo.Base.{
  is_empty, ℕ, suc, List, [], ◌∷◌, ◌++◌, map, append-nil, append_assoc, ◌≡◌, refl, ◌∙◌, ap, sym,
  Bool, true, false, Bytes, str, bytes_eq, value, ok, continue, if◌then◌else◌,
}
use certigo.X509.{Certificate}
use certigo.Certs.{Block, for_each, trim_space, error_from_errors}
use certigo.Certs.Formats.{format_for_file}
use certigo.Certs.Stream.{
  Libraries, Input, Passwords, OnBlock, pem_to_x509, read_certs_from_stream, stream_headers,
}
use certigo.Certs.Stream.Listing.{holds, deliver, perform, listing_of}
use certigo.Certs.Stream.Listing.Refines.{read_certs_from_stream-listing_of}
use certigo.Certs.Inputs.{read_as_x509_from_files}
use certigo.Certs.Inputs.Errors.{done, next, read_inputs-Reads}
use certigo.Terminal.{Terminal}
use certigo.Cli.{
  Host, Session, exits, put, print_line, passwords, warn_request, input_files, result_json,
  certificate_title, certificate_text,
}
use certigo.Cli.Dump.{DumpFlags, collect, dump_text, finish_dump, show_dump, dump}

-- The blocks hold these certificates, in order; private keys and other blocks are left out.
pub data Carries (L : Libraries) : List Block → List Certificate → Type 0 where
  no_more : Carries L [] []
  certificate :
      {block : Block} {cert : Certificate} {blocks : List Block} {certs : List Certificate}
      → bytes_eq block.kind (str "CERTIFICATE") ≡ true
      → L.parse_certificate block.bytes ≡ value cert
      → Carries L blocks certs
      → Carries L (block ∷ blocks) (cert ∷ certs)
  other :
      {block : Block} {blocks : List Block} {certs : List Certificate}
      → bytes_eq block.kind (str "CERTIFICATE") ≡ false
      → bytes_eq block.kind (str "PKCS7") ≡ false
      → bytes_eq block.kind (str "CERTIFICATE REQUEST") ≡ false
      → Carries L blocks certs
      → Carries L (block ∷ blocks) certs

module _ {W : Type 0} where
  -- The session with these certificates, all of one format.
  abbrev pub collected : Bytes → List Certificate → Session W → Session W
  collected format certs s = record s {
    result = record s.result {
      certificates = s.result.certificates ++ certs;
      formats = s.result.formats ++ map (λ cert. format) certs;
    };
  }

  module _ (H : Host W) where
    abbrev pub certificate_list : ℕ → Bool → ℕ → Bytes → List Certificate → Bytes
    certificate_list width verbose i format [] = []
    certificate_list width verbose i format (cert ∷ certs) =
        certificate_title i
        ++ (str "Input Format: "
            ++ (format
                ++ (str "\n"
                    ++ (certificate_text H width verbose cert
                        ++ certificate_list width verbose (suc i) format certs))))

    dump_text-certificate_list :
        (width : ℕ) (verbose : Bool) (i : ℕ) (format : Bytes) (certs : List Certificate)
        → dump_text H width verbose i certs (map (λ cert. format) certs)
          ≡ ok (certificate_list width verbose i format certs)
    unfolding dump_text
    dump_text-certificate_list width verbose i format [] = refl
    dump_text-certificate_list width verbose i format (cert ∷ certs) =
        rw (dump_text-certificate_list width verbose (suc i) format certs) refl

    -- A session with other lists of certificates and formats.
    abbrev with_lists : Session W → List Certificate → List Bytes → Session W
    with_lists s certs formats = record s {
      result = record s.result { certificates = certs; formats = formats };
    }

    abbrev on_block : OnBlock (Session W)
    on_block = pem_to_x509 H.verifier.libraries (λ t. (ok tt, warn_request H.paint t)) collect

    deliver-collected :
        (password : Passwords (Session W)) (format : Bytes) (blocks : List Block)
        (certs : List Certificate) (s : Session W)
        → Carries H.verifier.libraries blocks certs
        → deliver password on_block format blocks s ≡ (ok tt, collected format certs s)
    unfolding for_each pem_to_x509
    deliver-collected password format _ _ s no_more = λ i. (
      ok tt,
      with_lists s (sym (append-nil s.result.certificates) i) (sym (append-nil s.result.formats) i),
    )
    deliver-collected password format _ _ s
          (certificate {block} {cert} {blocks} {certs} hk hc more) =
        let rest = deliver password on_block format blocks in
        let first : on_block block format s ≡ (ok tt, collected format (cert ∷ []) s) =
          rw (pem_to_x509, hk, hc) refl in
        let given = map (λ cert. format) certs in
        ap (continue (λ _. rest)) first
        ∙ deliver-collected password format blocks certs (collected format (cert ∷ []) s) more
        ∙ (λ i. (
          ok tt,
          with_lists s (append_assoc s.result.certificates (cert ∷ []) certs i)
              (append_assoc s.result.formats (format ∷ []) given i),
        ))
    deliver-collected password format _ _ s (other {block} {blocks} {certs} h₁ h₂ h₃ more) =
        let rest = deliver password on_block format blocks in
        let first : on_block block format s ≡ (ok tt, s) = rw (pem_to_x509, h₁, h₂, h₃) refl in
        ap (continue (λ _. rest)) first ∙ deliver-collected password format blocks certs s more

    read_as_x509_from_files-collected :
        (password : Passwords (Session W)) (kind : Bytes) (s : Session W) (file : Input)
        {found : Bytes} {blocks : List Block} {certs : List Certificate}
        → format_for_file file.content file.failure file.name kind ≡ value found
        → listing_of H.verifier.libraries password.read
            (stream_headers file.name)
            (trim_space found)
            file.content
            file.failure
          ≡ holds blocks
        → Carries H.verifier.libraries blocks certs
        → read_as_x509_from_files H.verifier.libraries password
            (λ t. (ok tt, warn_request H.paint t))
            (file ∷ [])
            kind
            collect
            s
          ≡ (ok tt, collected (trim_space found) certs s)
    unfolding read_as_x509_from_files error_from_errors
    read_as_x509_from_files-collected password kind s file {found} {blocks} {certs} hk hl carries =
        let libraries = H.verifier.libraries in
        let streams : read_certs_from_stream libraries password file.content file.failure file.name
              found on_block s
            ≡ (ok tt, collected (trim_space found) certs s) =
          (λ i.
            read_certs_from_stream-listing_of libraries password file.content file.failure file.name
              found on_block i s)
          ∙ ap (λ listing. perform password on_block (trim_space found) listing s) hl
          ∙ ap (continue (λ _ t. (ok tt, t)))
              (deliver-collected password (trim_space found) blocks certs s carries) in
        read_inputs-Reads libraries password kind on_block
          (λ name.
            str "unable to guess file type for file " ++ (name ++ str ", try adding --format flag"))
          (next {r = ok tt} hk streams (λ p. cc) done)

    finish_dump-filled :
        (s : Session W) {cert : Certificate} {certs : List Certificate}
        → s.result.certificates ≡ cert ∷ certs
        → finish_dump H false (ok tt) s ≡ (exits 0, s)
    unfolding finish_dump
    finish_dump-filled s h =
        let filled : is_empty s.result.certificates ≡ false = ap is_empty h in
        rw (finish_dump, filled) refl

    show_dump-filled :
        (width : ℕ) (verbose json : Bool) (format : Bytes) (s : Session W) (cert : Certificate)
        (certs : List Certificate)
        → s.result.certificates ≡ cert ∷ certs
        → s.result.formats ≡ map (λ c. format) (cert ∷ certs)
        → show_dump H width verbose json (ok tt, s) ≡ (
          exits 0,
          if json
              then print_line (result_json H s.result) s
              else put (certificate_list width verbose 0 format (cert ∷ certs)) s,
        )
    unfolding show_dump
    show_dump-filled width verbose true format s cert certs hc hs = finish_dump-filled _ hc
    show_dump-filled width verbose false format s cert certs hc hs =
        let text : dump_text H width verbose 0 s.result.certificates s.result.formats
            ≡ ok (certificate_list width verbose 0 format (cert ∷ certs)) =
          (λ i. dump_text H width verbose 0 (hc i) (hs i))
          ∙ dump_text-certificate_list width verbose 0 format (cert ∷ certs) in
        rw (show_dump, text) (finish_dump-filled _ hc)

    -- One file, whose format is known and which is complete, with at least one certificate, in a
    -- session that has none yet; its blocks are certificates that parse, and others that are neither
    -- envelopes nor requests. Without `--pem` dump ends with the exit code 0, and shows each of the
    -- certificates, in order, under its number and the format, or the result with all of them as
    -- JSON.
    pub dump-certificate_list :
        (tty : Terminal) (verbose : Bool) (flags : DumpFlags) (s : Session W) {file : Input}
        {found : Bytes} {blocks : List Block} {cert : Certificate} {certs : List Certificate}
        → flags.pem ≡ false
        → input_files H flags.files ≡ value (file ∷ [])
        → format_for_file file.content file.failure file.name flags.kind ≡ value found
        → listing_of H.verifier.libraries
            (passwords H tty flags.password).read
            (stream_headers file.name)
            (trim_space found)
            file.content
            file.failure
          ≡ holds blocks
        → Carries H.verifier.libraries blocks (cert ∷ certs)
        → s.result.certificates ≡ []
        → s.result.formats ≡ []
        → let t = collected (trim_space found) (cert ∷ certs) s in
          dump H tty verbose flags s ≡ (
            exits 0,
            if flags.json
                then print_line (result_json H t.result) t
                else put (certificate_list tty.width verbose 0 (trim_space found) (cert ∷ certs)) t,
          )
    unfolding dump
    dump-certificate_list tty verbose flags s {file} {found} {blocks} {cert} {certs} hp hf hk hl
          carries hc hs =
        let t = collected (trim_space found) (cert ∷ certs) s in
        rw
          (
            hp,
            hf,
            dump,
            read_as_x509_from_files-collected (passwords H tty flags.password) flags.kind s file hk
                hl carries,
          )
          (show_dump-filled tty.width verbose flags.json (trim_space found) t cert certs
            (ap (λ given. given ++ cert ∷ certs) hc)
            (ap (λ given. given ++ map (λ c. trim_space found) (cert ∷ certs)) hs))
