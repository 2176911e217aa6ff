-- ===== src/Certs/Stream/PemFiles.antt =====
-- lib/certs.go: `readCertsFromStream` on a file of PEM blocks.
use certigo.Base.{
  ℕ, zero, suc, ◌+◌, ◌-◌, ◌≤◌, ◌<◌, arith, length, length-append, take, take-append, drop-append,
  take-append_more, List, [], ◌∷◌, ◌++◌, All, map, ◌≡◌, refl, sym, ap, ◌∙◌, Option, none, some,
  Bytes, str, ◌>>◌, bytes_eq_refl, append-nil,
}
use certigo.Base.Dict.{Dict}
use certigo.Certs.{Block, merged, for_each, trim_space}
use certigo.Certs.Stream.{
  Libraries, Passwords, OnBlock, max_token, pem_tokens, on_token, read_pem, read_format,
  read_certs_from_stream, stream_headers,
}

-- A block, and its text in the file.
abbrev pub Written : Type 0
Written = Block × Bytes

-- The texts, one behind the other, and what stands behind them.
abbrev pub pem_file : List Written → Bytes → Bytes
pem_file [] tail = tail
pem_file (item ∷ items) tail = item.1 ++ pem_file items tail

-- The buffer of the scanner over a text that fits it.
window :
    (text rest : Bytes)
    → length text ≤ max_token
    → take max_token (text ++ rest) ≡ text ++ take (max_token - length text) rest
window text rest h =
    let size : max_token ≡ length text + (max_token - length text) = omega (arith, h) in
    ap (λ n. take n (text ++ rest)) size ∙ take-append_more text rest (max_token - length text)

module _ (L : Libraries) where
  -- The text holds the block, whatever stands behind it, and fits the buffer.
  abbrev pub IsWritten : Written → Type 0
  IsWritten item =
      ((rest : Bytes) → L.pem_decode (item.1 ++ rest) ≡ some (item.0, rest))
      × (0 < length item.1)
      × (length item.1 ≤ max_token)

  pem_tokens-step :
      (item : Written) (rest : Bytes) (fuel : ℕ)
      → IsWritten item
      → pem_tokens L (suc fuel) (item.1 ++ rest) ≡ item.1 ∷ pem_tokens L fuel rest
  unfolding pem_tokens
  pem_tokens-step (block, text) rest fuel (decodes, some_text, fits) =
      let left = take (max_token - length text) rest in
      let size : length (take max_token (text ++ rest)) - length left ≡ length text =
        omega (arith, length-append text left, ap length (window text rest fits)) in
      rw
        (
          pem_tokens,
          window text rest fits,
          decodes left,
          size,
          take-append text rest,
          drop-append text rest,
        )
        refl

  pem_tokens-file :
      (items : List Written) (tail : Bytes) (fuel : ℕ)
      → All IsWritten items
      → L.pem_decode (take max_token tail) ≡ none
      → length (pem_file items tail) ≤ fuel
      → pem_tokens L fuel (pem_file items tail) ≡ map (λ item. item.1) items
  unfolding pem_tokens
  pem_tokens-file [] tail zero written h enough = refl
  pem_tokens-file [] tail (suc fuel) written h enough = rw (h, pem_tokens) refl
  pem_tokens-file (item ∷ items) tail zero (written, others) h enough =
      absurd (omega (arith, written.2, length-append item.1 (pem_file items tail), enough))
  pem_tokens-file (item ∷ items) tail (suc fuel) (written, others) h enough =
      pem_tokens-step item (pem_file items tail) fuel written
      ∙ ap (λ tokens. item.1 ∷ tokens)
          (pem_tokens-file items tail fuel others h
            (omega (arith, written.2, length-append item.1 (pem_file items tail), enough)))

  module _ {S : Type 0} (password : Passwords S) (callback : OnBlock S) where
    on_token-written :
        (headers : Dict Bytes) (item : Written)
        → IsWritten item
        → on_token L password callback headers item.1 ≡ callback (merged item.0 headers) (str "PEM")
    on_token-written headers (block, text) (decodes, some_text, fits) =
        let e : L.pem_decode text ≡ some (block, []) =
          ap L.pem_decode (sym (append-nil text)) ∙ decodes [] in
        rw (e, on_token) refl

    for_each-written :
        (headers : Dict Bytes) (items : List Written)
        → All IsWritten items
        → for_each (on_token L password callback headers) (map (λ item. item.1) items)
          ≡ for_each (λ (item : Written). callback (merged item.0 headers) (str "PEM")) items
    unfolding for_each
    for_each-written headers [] written = refl
    for_each-written headers (item ∷ items) (written, others) =
        λ i. on_token-written headers item written i >> for_each-written headers items others i

    -- A file of PEM blocks, one behind the other, and then a text in whose first 64 KiB there is no
    -- block, where the text of each block is not empty, has at most 64 KiB, and is decoded as the
    -- block and what stands behind it: read as PEM, it gives the callback each block, in order,
    -- with the headers of the input added, up to the first error of the callback, and that is all. No
    -- error is told of what stands behind the blocks, nor of a read that fails there.
    pub read_certs_from_stream-pem_file :
        (items : List Written) (tail filename format : Bytes) (failure : Option Bytes)
        → trim_space format ≡ str "PEM"
        → All IsWritten items
        → L.pem_decode (take max_token tail) ≡ none
        → read_certs_from_stream L password (pem_file items tail) failure filename format callback
          ≡ for_each
              (λ (item : Written). callback (merged item.0 (stream_headers filename)) (str "PEM"))
              items
    unfolding read_certs_from_stream read_format read_pem
    read_certs_from_stream-pem_file items tail filename format failure hf written h =
        let headers = stream_headers filename in
        rw (hf, bytes_eq_refl (str "PEM"))
          (ap (for_each (on_token L password callback headers))
              (pem_tokens-file items tail (length (pem_file items tail)) written h (omega arith))
            ∙ for_each-written headers items written)
