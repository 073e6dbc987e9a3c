-- ===== src/Chunks/Cover.antt =====
-- The chunks of src/file_chunk_pos.rs cut a file's bytes without gap or overlap.
use native.Mathlib.Decide.{dec_lt}
use rust_filen.Base.{
  ℕ, zero, suc, ◌+◌, ◌*◌, ◌<◌, ◌≡◌, sym, ◌∙◌, ap, List, ◌++◌, some, arith, returns, map, length,
  take, drop, concat, drop_all, take-drop_piece,
}
use rust_filen.Base.Text.{Bytes}
use rust_filen.Chunks.{FileChunkPosition, FileChunkPositions, new, collect}
use rust_filen.Chunks.Collect.{collect-new}
use rust_filen.Chunks.Spec.{
  Fits, chunk_count, position_at, positions_from, layout, lt-chunk_count, suc_mul,
}

-- The bytes that `seek` and `read_exact` get for a chunk.
abbrev pub slice : Bytes → FileChunkPosition → Bytes
slice content p = take p.chunk_size (drop p.start_position content)

module _ (c : ℕ) (content : Bytes) (pos : 0 < c) where
  slice-append :
      (i : ℕ)
      → slice content (position_at c (length content) i) ++ drop (suc i * c) content
        ≡ drop (i * c) content
  slice-append i =
      let e : suc i * c ≡ i * c + c = suc_mul c (length content) pos i in
      rw e (take-drop_piece c (i * c) content)

  concat-slices_from :
      (n i : ℕ)
      → i + n ≡ chunk_count c (length content)
      → concat (map (slice content) (positions_from c (length content) i n)) ≡ drop (i * c) content
  concat-slices_from zero i e = sym (
      drop_all (i * c) content (elim (dec_lt (i * c) (length content)) [
        | yes p ↦ absurd (omega (arith, (lt-chunk_count c (length content) pos i).1 p))
        | no p ↦ omega arith
      ]))
  concat-slices_from (suc n) i e = rw (concat-slices_from n (suc i) (omega arith)) (slice-append i)

concat-layout :
    (chunk_size : ℕ) (content : Bytes)
    → 0 < chunk_size
    → concat (map (slice content) (layout chunk_size (length content))) ≡ content
concat-layout c content pos =
    concat-slices_from c content pos (chunk_count c (length content)) 0 (omega arith)
    ∙ (let e : 0 * c ≡ 0 = omega arith in ap (λ (k : ℕ). drop k content) e)

-- The positions that the iterator yields cut a file into pieces that, put together in that order, are
-- the file: no byte is left out, repeated or moved. Stated for sizes that fit their machine types and
-- fewer than 2^32 chunks.
pub concat-slices :
    (chunk_size : ℕ) (content : Bytes)
    → Fits chunk_size (length content)
    → (s : FileChunkPositions) × (positions : List FileChunkPosition) × (new chunk_size
          (length content)
        ≡ returns s)
      × (collect (suc (chunk_count chunk_size (length content))) s ≡ some positions)
      × (concat (map (slice content) positions) ≡ content)
concat-slices c content fits =
    let (s, made, all) = collect-new c (length content) fits in
    (s, layout c (length content), made, all, concat-layout c content fits.positive)
