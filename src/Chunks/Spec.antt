-- ===== src/Chunks/Spec.antt =====
-- The layout of a file in chunks, written down without an iterator: chunk `i` begins at byte
-- `i * chunk_size` and holds `chunk_size` bytes or what is left. The counterpart of
-- src/file_chunk_pos.rs.
use native.Mathlib.Nat.{le-div_iff_mul-le, add-div_right}
use rust_filen.Base.{
  ℕ, zero, suc, ◌+◌, ◌-◌, ◌*◌, ◌/◌, ◌^◌, ◌<◌, min, ◌≡◌, ◌↔◌, List, [], ◌∷◌, arith, length,
}
use rust_filen.Chunks.{FileChunkPosition, last_index}

-- The number of chunks, `file_size / chunk_size` rounded up.
unfoldable pub chunk_count : ℕ → ℕ → ℕ
chunk_count chunk_size file_size = (file_size + chunk_size - 1) / chunk_size

abbrev pub position_at : ℕ → ℕ → ℕ → FileChunkPosition
position_at chunk_size file_size i = record {
  index = i;
  start_position = i * chunk_size;
  chunk_size = min chunk_size (file_size - i * chunk_size);
}

-- `n` chunks from chunk `i` on.
abbrev pub positions_from : ℕ → ℕ → ℕ → ℕ → List FileChunkPosition
positions_from chunk_size file_size i zero = []
positions_from chunk_size file_size i (suc n) =
    position_at chunk_size file_size i ∷ positions_from chunk_size file_size (suc i) n

-- All chunks of a file.
abbrev pub layout : ℕ → ℕ → List FileChunkPosition
layout chunk_size file_size =
    positions_from chunk_size file_size 0 (chunk_count chunk_size file_size)

pub length-positions_from : (c f i n : ℕ) → length (positions_from c f i n) ≡ n
length-positions_from c f i zero = omega arith
length-positions_from c f i (suc n) = omega (arith, length-positions_from c f (suc i) n)

-- The sizes are those of the types `u32` and `u64`, and the chunks can be counted in a `u32`.
pub record Fits (chunk_size file_size : ℕ) : Type 0 where
  pub positive : 0 < chunk_size
  pub chunk_size_lt : chunk_size < 2 ^ 32
  pub file_size_lt : file_size < 2 ^ 64
  pub count_lt : chunk_count chunk_size file_size < 2 ^ 32

module _ (c f : ℕ) (pos : 0 < c) where
  pub suc_mul : (i : ℕ) → suc i * c ≡ i * c + c
  suc_mul i = grind arith

  -- A chunk exists exactly when its first byte lies in the file.
  pub lt-chunk_count : (i : ℕ) → (i < chunk_count c f) ↔ (i * c < f)
  unfolding chunk_count
  lt-chunk_count i = (
    λ h. omega (arith, suc_mul i, (le-div_iff_mul-le pos).0 h),
    λ h. (le-div_iff_mul-le pos).1 (omega (arith, suc_mul i)),
  )

  pub chunk_count-suc : 0 < f → chunk_count c f ≡ suc ((f - 1) / c)
  unfolding chunk_count
  chunk_count-suc h =
      let e : f + c - 1 ≡ (f - 1) + c = omega arith in
      rw e (omega (arith, add-div_right (f - 1) pos))

  pub chunk_count-zero : f ≡ 0 → chunk_count c f ≡ 0
  chunk_count-zero e = grind (arith, (lt-chunk_count 0).0)

  pub last_index-chunk_count :
      0 < f → chunk_count c f < 2 ^ 32 → suc (last_index c f) ≡ chunk_count c f
  last_index-chunk_count h lt = omega (arith, chunk_count-suc h)
