-- ===== src/Chunks/Collect.antt =====
-- The iterator of src/file_chunk_pos.rs yields the layout, and ends.
use mathlib.Core.Option
use rust_filen.Base.{
  ℕ, zero, suc, ◌+◌, ◌*◌, ◌<◌, ◌≡◌, ◌∙◌, List, [], ◌∷◌, Option, none, some, arith, leb,
  if◌then◌else◌, ap, returns, refl, sym, Option-cases, inl, inr,
}
use rust_filen.Base.Decimal.{u64_max}
use rust_filen.Chunks.{FileChunkPosition, FileChunkPositions, last_index, next, collect, new}
use rust_filen.Chunks.Spec.{
  chunk_count, position_at, positions_from, layout, Fits, lt-chunk_count, chunk_count-zero, suc_mul,
  last_index-chunk_count,
}

collect_end : (n : ℕ) (s t : FileChunkPositions) → next s ≡ (none, t) → collect (suc n) s ≡ some []
unfolding collect
collect_end n s t e = rw (e, collect)

collect_item :
    (n : ℕ) (s t : FileChunkPositions) (p : FileChunkPosition)
    → next s ≡ (some p, t)
    → collect (suc n) s ≡ Option.map (λ ps. p ∷ ps) (collect n t)
unfolding collect
collect_item n s t p e =
    rw (e, collect)
      (ap
        (λ (r : Option FileChunkPosition × FileChunkPositions).
          Option.map (λ ps. p ∷ ps) (collect n r.1))
        e)

module _ (c f : ℕ) (fits : Fits c f) where
  abbrev at : ℕ → ℕ → FileChunkPositions
  at i offset = record { current_index = i; current_offset = offset; chunk_size = c; file_size = f }

  -- The offset behind chunk `i`: the file's end where the sum overflows a `u64`.
  abbrev offset_after : ℕ → ℕ
  offset_after i = if leb (i * c + c) u64_max then i * c + c else f

  next_in_file :
      (i : ℕ)
      → i < chunk_count c f
      → next (at i (i * c)) ≡ (some (position_at c f i), at (suc i) (offset_after i))
  unfolding next
  next_in_file i h =
      let inside : i * c < f = (lt-chunk_count c f fits.positive i).0 h in
      let bound : suc (last_index c f) ≡ chunk_count c f =
        last_index-chunk_count c f fits.positive (omega arith) fits.count_lt in
      ground arith

  offset_after-mul : (i : ℕ) → suc i < chunk_count c f → offset_after i ≡ suc i * c
  offset_after-mul i h =
      let inside : suc i * c < f = (lt-chunk_count c f fits.positive (suc i)).0 h in
      ground (arith, suc_mul c f fits.positive i, fits.file_size_lt)

  next-at_end : (i offset : ℕ) → i ≡ chunk_count c f → next (at i offset) ≡ (none, at i offset)
  unfolding next
  next-at_end i offset e =
      let zero_case = chunk_count-zero c f fits.positive in
      let bound = last_index-chunk_count c f fits.positive in
      ground (arith, zero_case, bound, fits.count_lt)

  -- With `n` chunks left from chunk `i` on, `n + 1` calls of `next` collect them.
  collect_from :
      (n i offset : ℕ)
      → i + n ≡ chunk_count c f
      → (0 < n → offset ≡ i * c)
      → collect (suc n) (at i offset) ≡ some (positions_from c f i n)
  collect_from zero i offset e o =
      collect_end 0 (at i offset) (at i offset) (next-at_end i offset (omega arith))
  collect_from (suc n) i offset e o = rw (o (omega arith)) (
      collect_item (suc n) _ _ _ (next_in_file i (omega arith))
      ∙ ap (Option.map (λ ps. position_at c f i ∷ ps)) (
          collect_from n (suc i) (offset_after i) (omega arith)
            (λ more. offset_after-mul i (omega arith))))

-- The iterator over a file's chunks ends after one call of `next` for each chunk and one more, and
-- yields exactly the chunks of the layout, in order: chunk `i` starts at `i * chunk_size` and has
-- `chunk_size` bytes, the last one what is left. Stated for sizes that fit their machine types and
-- fewer than 2^32 chunks.
pub collect-new :
    (chunk_size file_size : ℕ)
    → Fits chunk_size file_size
    → (s : FileChunkPositions) × (new chunk_size file_size ≡ returns s)
      × (collect (suc (chunk_count chunk_size file_size)) s ≡ some (layout chunk_size file_size))
unfolding new
collect-new c f fits = (
  at c f fits 0 0,
  ground (arith, fits.positive),
  collect_from c f fits (chunk_count c f) 0 0 (omega arith) (λ _. omega arith),
)

-- However many calls of `next` are allowed, if they suffice the items are the same.
pub collect_unique :
    (m n : ℕ) (s : FileChunkPositions) (ps qs : List FileChunkPosition)
    → collect m s ≡ some ps
    → collect n s ≡ some qs
    → ps ≡ qs
unfolding collect
collect_unique zero n s ps qs e f = absurd (cc e)
collect_unique (suc m) zero s ps qs e f = absurd (cc f)
collect_unique (suc m) (suc n) s ps qs e f =
    go (next s) refl (λ t rs rs' found found'. collect_unique m n t rs rs' found found')
  where
    go :
        (o : Option FileChunkPosition × FileChunkPositions)
        → next s ≡ o
        → ((t : FileChunkPositions) (rs rs' : List FileChunkPosition)
            → collect m t ≡ some rs
            → collect n t ≡ some rs'
            → rs ≡ rs')
        → ps ≡ qs
    go (none, t) x ih = cc (sym (collect_end m s t x) ∙ e, sym (collect_end n s t x) ∙ f)
    go (some p, t) x ih =
        let e' = sym (collect_item m s t p x) ∙ e in
        let f' = sym (collect_item n s t p x) ∙ f in
        elim (Option-cases (collect m t)) [
          | inl out ↦ absurd (cc (rw out at e'))
          | inr (rs, found) ↦ elim (Option-cases (collect n t)) [
            | inl out ↦ absurd (cc (rw out at f'))
            | inr (rs', found') ↦
                let same = ih t rs rs' found found' in cc (rw found at e', rw found' at f', same)
          ]
        ]
