-- ===== src/Chunks/Count.antt =====
-- `calculate_chunk_count` and the index of the dummy chunk (src/v1/upload_file.rs) agree with the
-- iterator of src/file_chunk_pos.rs.
use rust_filen.Base.{
  ℕ, zero, suc, ◌+◌, ◌-◌, ◌*◌, ◌%◌, ◌^◌, ◌≤◌, ◌<◌, ◌≡◌, refl, none, some, arith, length,
}
use rust_filen.Chunks.{count_from, calculate_chunk_count, dummy_chunk_index, last_index}
use rust_filen.Chunks.Spec.{
  chunk_count, layout, Fits, lt-chunk_count, suc_mul, last_index-chunk_count, length-positions_from,
}

module _ (c f : ℕ) (fits : Fits c f) (no_wrap : chunk_count c f * c < 2 ^ 64) where
  count_from-chunk_count :
      (n i offset : ℕ)
      → i + n ≡ chunk_count c f
      → offset ≡ i * c
      → count_from (suc n) c f offset i ≡ some (chunk_count c f)
  unfolding count_from
  count_from-chunk_count zero i offset e o = ground (arith, (lt-chunk_count c f fits.positive i).1)
  count_from-chunk_count (suc n) i offset e o =
      let inside : i * c < f = (lt-chunk_count c f fits.positive i).0 (omega arith) in
      let le : suc i * c ≤ chunk_count c f * c = grind arith in
      let e1 : (offset + c) % 2 ^ 64 ≡ suc i * c = omega (arith, suc_mul c f fits.positive i) in
      let e2 : (i + 1) % 2 ^ 32 ≡ suc i = omega (arith, fits.count_lt) in
      ground (arith, count_from-chunk_count n (suc i) (suc i * c), e1, e2)

-- `calculate_chunk_count` returns, within one round for each chunk and one more, the number of
-- chunks that the iterator yields. Stated where the offset behind the last chunk fits a `u64`.
pub calculate_chunk_count-length :
    (chunk_size file_size : ℕ)
    → Fits chunk_size file_size
    → chunk_count chunk_size file_size * chunk_size < 2 ^ 64
    → calculate_chunk_count (suc (chunk_count chunk_size file_size)) chunk_size file_size
      ≡ some (length (layout chunk_size file_size))
unfolding calculate_chunk_count
calculate_chunk_count-length c f fits no_wrap =
    rw (length-positions_from c f 0 (chunk_count c f))
      (count_from-chunk_count c f fits no_wrap (chunk_count c f) 0 0 (omega arith) (omega arith))

-- The dummy chunk of a file that is not empty is sent under the first index that no chunk has, if
-- the chunks are fewer than 2^32.
pub dummy_chunk_index-length :
    (chunk_size file_size : ℕ)
    → Fits chunk_size file_size
    → 0 < file_size
    → dummy_chunk_index chunk_size file_size ≡ length (layout chunk_size file_size)
unfolding dummy_chunk_index
dummy_chunk_index-length c f fits more =
    let bound : suc (last_index c f) ≡ chunk_count c f =
      last_index-chunk_count c f fits.positive more fits.count_lt in
    rw (length-positions_from c f 0 (chunk_count c f)) (omega (arith, fits.count_lt))

module _ (f : ℕ) (near_top : 2 ^ 64 - 2 ^ 20 < f) where
  -- With chunks of a mebibyte every offset stays a multiple of that, below the size.
  count_from-none : (fuel k n : ℕ) → k < 2 ^ 44 → count_from fuel (2 ^ 20) f (k * 2 ^ 20) n ≡ none
  unfolding count_from
  count_from-none zero k n h = refl
  count_from-none (suc fuel) k n h =
      let wrapped : (k * 2 ^ 20 + 2 ^ 20) % 2 ^ 64 ≡ ((k + 1) % 2 ^ 44) * 2 ^ 20 = omega arith in
      ground (arith, count_from-none fuel ((k + 1) % 2 ^ 44) ((n + 1) % 2 ^ 32), wrapped)

-- For a size within the last mebibyte below 2^64, `calculate_chunk_count` with the library's chunk
-- size of a mebibyte never returns, however many rounds it is given: its offset wraps to 0.
pub calculate_chunk_count-none :
    (file_size fuel : ℕ)
    → 2 ^ 64 - 2 ^ 20 < file_size
    → calculate_chunk_count fuel (2 ^ 20) file_size ≡ none
unfolding calculate_chunk_count
calculate_chunk_count-none f fuel h = count_from-none f h fuel 0 0 (omega arith)
