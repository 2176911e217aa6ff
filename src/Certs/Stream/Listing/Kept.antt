-- ===== src/Certs/Stream/Listing/Kept.antt =====
-- lib/certs.go: `readCertsFromStream` with a callback that keeps the blocks.
use mathlib.Core.List.{Permᴰ}
use certigo.Base.{
  continue, List, [], ◌∷◌, ◌++◌, ◌≡◌, ◌∙◌, ap, sym, append-nil, append_assoc, Option, Bytes, ok,
}
use certigo.Base.Dict.{Dict}
use certigo.Jceks.Types.{Entry}
use certigo.Jceks.Access.Listing.{IsVisit}
use certigo.X509.{Certificate}
use certigo.Certs.{Block, for_each, trim_space}
use certigo.Certs.Stream.{Libraries, Passwords, OnBlock, read_certs_from_stream, stream_headers}
use certigo.Certs.Stream.Listing.{
  Ending, complete, failed, refused, crashed, Listing, holds, finish, deliver, perform, listing_of,
}
use certigo.Certs.Stream.Listing.Refines.{read_certs_from_stream-listing_of}
use certigo.Certs.Stream.Listing.Visits.{visiting, listing_of-Agrees}

-- A callback that keeps the blocks.
abbrev pub keep : OnBlock (List Block)
keep block format blocks = (ok tt, blocks ++ block ∷ [])

module _ (password : Passwords (List Block)) where
  deliver-keep :
      (format : Bytes) (blocks given : List Block)
      → deliver password keep format blocks given ≡ (ok tt, given ++ blocks)
  unfolding for_each
  deliver-keep format [] given = ap (λ all. (ok tt, all)) (sym (append-nil given))
  deliver-keep format (block ∷ blocks) given =
      deliver-keep format blocks (given ++ block ∷ [])
      ∙ ap (λ all. (ok tt, all)) (append_assoc given (block ∷ []) blocks)

  pub perform-keep :
      (format : Bytes) (listing : Listing)
      → perform password keep format listing []
        ≡ finish password keep format listing.ending listing.blocks
  perform-keep format listing =
      ap (continue (λ _. finish password keep format listing.ending))
        (deliver-keep format listing.blocks [])

  finish_complete :
      (format : Bytes) (given : List Block) (ending : Ending) (blocks : List Block)
      → finish password keep format ending given ≡ (ok tt, blocks)
      → record { blocks = given; ending = ending } ≡ holds blocks
  finish_complete format given complete blocks h = ap holds (ap (λ r. r.1) h)
  finish_complete format given (failed e) blocks h = absurd (cc)
  finish_complete format given (refused e) blocks h = absurd (cc)
  finish_complete format given crashed blocks h = absurd (cc)

  module _ (L : Libraries) (v w : Dict (Entry Certificate) → Dict (Entry Certificate))
      (hv : IsVisit v) (hw : IsVisit w) where
    -- Go visits a map in any order. Where an input is read to its end under one order, with a
    -- callback that keeps the blocks, so it is under any other, and the blocks are the same up to
    -- their order; whatever the format.
    pub read_certs_from_stream-visits :
        (content : Bytes) (failure : Option Bytes) (filename format : Bytes) (blocks : List Block)
        → read_certs_from_stream (visiting v L) password content failure filename format keep []
          ≡ (ok tt, blocks)
        → (others : List Block) × (read_certs_from_stream
              (visiting w L)
              password
              content
              failure
              filename
              format
              keep
              []
            ≡ (ok tt, others))
          × Permᴰ blocks others
    read_certs_from_stream-visits content failure filename format blocks h =
        let headers = stream_headers filename in
        let kind = trim_space format in
        let reads : (u : Dict (Entry Certificate) → Dict (Entry Certificate))
            → read_certs_from_stream (visiting u L) password content failure filename format keep []
              ≡ perform password keep kind
                  (listing_of (visiting u L) password.read headers kind content failure) [] =
          λ u i.
            read_certs_from_stream-listing_of (visiting u L) password content failure filename
              format keep i [] in
        let first = listing_of (visiting v L) password.read headers kind content failure in
        let found =
          (listing_of-Agrees L v w password.read headers hv hw kind content failure).agrees blocks (
            finish_complete kind first.blocks first.ending blocks
              (sym (perform-keep kind first) ∙ sym (reads v) ∙ h)) in
        (
          found.others,
          reads w
              ∙ ap (λ listing. perform password keep kind listing []) found.completes
              ∙ perform-keep kind (holds found.others),
          found.same,
        )
