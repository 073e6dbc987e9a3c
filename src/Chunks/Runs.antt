-- ===== src/Chunks/Runs.antt =====
-- The iterator of src/file_chunk_pos.rs on small files.
use mathlib.Core.Option
use rust_filen.Base.{◌*◌, ◌≡◌, refl, [], ◌∷◌, some, map}
use rust_filen.Chunks.{start, collect}

even :
    collect 3 (start 2 4)
    ≡ some (
        record { index = 0; start_position = 0; chunk_size = 2 }
        ∷ record { index = 1; start_position = 2; chunk_size = 2 }
        ∷ [])
unfolding collect
even = refl

uneven : Option.map (map (λ p. p.chunk_size)) (collect 4 (start 2 5)) ≡ some (2 ∷ 2 ∷ 1 ∷ [])
unfolding collect
uneven = refl

bigger_chunk :
    Option.map (map (λ p. p.chunk_size)) (collect 2 (start (1024 * 1024) 100)) ≡ some (100 ∷ [])
unfolding collect
bigger_chunk = refl

no_chunk : collect 1 (start 1 0) ≡ some []
unfolding collect
no_chunk = refl
