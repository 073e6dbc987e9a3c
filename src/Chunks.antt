-- ===== src/Chunks.antt =====
-- How a file is cut into chunks: src/file_chunk_pos.rs, and the chunk arithmetic of
-- src/v1/upload_file.rs (`calculate_chunk_count`, the index of the dummy chunk). Additions in `u32`
-- and `u64` wrap, as in a release build; `as u32` keeps the low 32 bits.
pub mod Machine
pub mod Runs
pub mod Spec
pub mod Collect
pub mod Cover
pub mod Count
use rust_filen.Base.{
  ℕ, zero, suc, ◌+◌, ◌-◌, ◌*◌, ◌/◌, ◌%◌, ◌^◌, Bool, ◌||◌, List, [], ◌∷◌, Option, none, some, ltb,
  leb, ◌==◌, if◌then◌else◌, ◌≡◌, refl, map, Outcome, returns, panics,
}
use mathlib.Core.Option
use rust_filen.Chunks.Machine.{as_u32, add_u32, add_u64, sub_u64, checked_add}

pub record FileChunkPosition : Type 0 where
  pub index : ℕ
  pub start_position : ℕ
  pub chunk_size : ℕ

pub record FileChunkPositions : Type 0 where
  pub current_index : ℕ
  pub current_offset : ℕ
  pub chunk_size : ℕ
  pub file_size : ℕ

abbrev start : ℕ → ℕ → FileChunkPositions
start chunk_size file_size = record {
  current_index = 0;
  current_offset = 0;
  chunk_size = chunk_size;
  file_size = file_size;
}

-- `FileChunkPositions::new`
unfoldable pub new : ℕ → ℕ → Outcome FileChunkPositions
new chunk_size file_size = if chunk_size == 0 then panics else returns (start chunk_size file_size)

-- The index of the chunk that holds the last byte, `((file_size - 1) / chunk_size) as u32`.
abbrev pub last_index : ℕ → ℕ → ℕ
last_index chunk_size file_size = as_u32 ((file_size - 1) / chunk_size)

-- The size of the chunk at `offset`; `next_offset` is 0 if the sum overflowed.
abbrev current_chunk_size : FileChunkPositions → ℕ → ℕ
current_chunk_size s next_offset =
    if next_offset == 0 || ltb s.file_size next_offset
    then as_u32 (sub_u64 s.file_size s.current_offset)
    else s.chunk_size

-- The body of the closure in `next`: the position, and the iterator moved on.
abbrev advance : FileChunkPositions → FileChunkPosition × FileChunkPositions
advance s =
    let maybe_next_offset = checked_add s.current_offset s.chunk_size in
    (
      record {
        index = s.current_index;
        start_position = s.current_offset;
        chunk_size = current_chunk_size s (Option.get_or maybe_next_offset 0);
      },
      record s {
        current_index = add_u32 s.current_index 1;
        current_offset = Option.get_or maybe_next_offset s.file_size;
      },
    )

-- `FileChunkPositions::next`
unfoldable pub next : FileChunkPositions → Option FileChunkPosition × FileChunkPositions
next s =
    if s.file_size == 0
    then (none, s)
    else if leb s.current_index (last_index s.chunk_size s.file_size)
    then (let (position, s') = advance s in (some position, s'))
    else (none, s)

-- `collect` on the iterator, within `fuel` calls of `next`; `none` means that they did not suffice.
unfoldable pub collect : ℕ → FileChunkPositions → Option (List FileChunkPosition)
unfolding next
collect zero s = none
collect (suc fuel) s =
    let (item, s') = next s in
    elim item [
      | none ↦ some []
      | some position ↦ Option.map (λ ps. position ∷ ps) (collect fuel s')
    ]

-- The loop of `calculate_chunk_count`, within `fuel` rounds.
pub count_from : ℕ → ℕ → ℕ → ℕ → ℕ → Option ℕ
count_from zero chunk_size file_size dummy_offset file_chunks = none
count_from (suc fuel) chunk_size file_size dummy_offset file_chunks =
    let rest =
      count_from fuel chunk_size file_size (add_u64 dummy_offset chunk_size)
        (add_u32 file_chunks 1) in
    if ltb dummy_offset file_size then rest else some file_chunks

-- `calculate_chunk_count`
unfoldable pub calculate_chunk_count : ℕ → ℕ → ℕ → Option ℕ
unfolding count_from
calculate_chunk_count fuel chunk_size file_size = count_from fuel chunk_size file_size 0 0

-- The index under which `send_dummy_chunk` sends its empty chunk, for a file that is not empty.
unfoldable pub dummy_chunk_index : ℕ → ℕ → ℕ
dummy_chunk_index chunk_size file_size = add_u32 (last_index chunk_size file_size) 1
