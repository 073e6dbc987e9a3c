-- ===== src/Download/Batch.antt =====
-- The asynchronous download of src/v1/download_file.rs, in batches of chunks. Requests that run
-- concurrently are taken in the order in which they are started.
pub mod Errors
pub mod Order
use rust_filen.Base.{
  ℕ, ◌+◌, ◌*◌, ◌^◌, ◌%◌, List, [], ◌∷◌, Result, ok, err, map_ok, length, range, sum_u64, enumerate,
  chunks_of, ◌≡◌, refl,
}
use rust_filen.Base.Text.{Bytes}
use rust_filen.Base.Effects.{Eff, ◌>>=◌, ◌>>◌, lift, context, traverse}
use rust_filen.Backoff.{RetrySettings, Retry, call}
use rust_filen.Names.{Uuids}
use rust_filen.Crypto.Primitives.{Ciphers}
use rust_filen.Chunks.Machine.{add_u32}
use rust_filen.Download.{
  Io, FileLocation, FileChunkLocation, get_file_chunk_location, DownloadError,
  cannot_write_file_chunk, cannot_flush_writer, download_file_chunk, open_chunk,
}

-- `ASYNC_CHUNK_BATCH_SIZE`
abbrev pub async_chunk_batch_size : ℕ
async_chunk_batch_size = 16

-- `batch_chunks`, for batches of at least one chunk.
unfoldable pub batch_chunks : ℕ → ℕ → List (List ℕ)
batch_chunks file_chunk_count batch_size =
    chunks_of file_chunk_count batch_size (range 0 file_chunk_count)

five_in_twos : batch_chunks 5 2 ≡ (0 ∷ 1 ∷ []) ∷ (2 ∷ 3 ∷ []) ∷ (4 ∷ []) ∷ []
unfolding batch_chunks
five_in_twos = refl

-- A decrypted chunk in front of the others, and the sum of the encrypted lengths.
abbrev put_chunk : ℕ → Bytes → List Bytes × ℕ → List Bytes × ℕ
put_chunk encrypted_length plain (plains, total) =
    (plain ∷ plains, (encrypted_length + total) % 2 ^ 64)

module _ (u : Uuids) (c : Ciphers) {W : Type 0} (io : Io W) where
  -- The closure over a batch in `decrypt_batch`, from the chunk at `index` on.
  decrypt_chunks :
      ℕ → FileLocation u → ℕ → Bytes → ℕ → List Bytes → Result (List Bytes × ℕ) (DownloadError u io)
  decrypt_chunks batch_index location version file_key index [] = ok ([], 0)
  decrypt_chunks batch_index location version file_key index (encrypted ∷ batch) =
      let chunk_location = get_file_chunk_location u location (add_u32 batch_index index) in
      let rest = decrypt_chunks batch_index location version file_key (index + 1) batch in
      elim (open_chunk u io c chunk_location file_key version encrypted) [
        | ok plain ↦ map_ok (put_chunk (length encrypted) plain) rest
        | err e ↦ err e
      ]

  unfoldable pub decrypt_batch :
      ℕ → List Bytes → FileLocation u → ℕ → Bytes → Result (List Bytes × ℕ) (DownloadError u io)
  unfolding decrypt_chunks
  decrypt_batch batch_index batch location version file_key =
      decrypt_chunks batch_index location version file_key 0 batch

  unfoldable pub write_batch : List Bytes → ℕ → FileChunkLocation u → Eff W ℕ (DownloadError u io)
  write_batch batch batch_encrypted_size location = do
    written_lengths ←
        traverse
          (λ bytes.
            context (cannot_write_file_chunk (length bytes) location) (io.write_all bytes)
            >> lift (ok batch_encrypted_size))
          batch
    lift (ok (sum_u64 written_lengths))

  module _ (retry : Retry W) (settings : RetrySettings) (location : FileLocation u) where
    -- `download_batch_async`
    unfoldable pub download_batch : List ℕ → Eff W (List Bytes) (DownloadError u io)
    download_batch =
        traverse (λ i.
          call retry settings (download_file_chunk u io (get_file_chunk_location u location i)))

    module _ (version : ℕ) (file_key : Bytes) where
      -- `download_and_decrypt_action`
      unfoldable pub download_and_decrypt_batch :
          ℕ × List ℕ → Eff W (List Bytes × ℕ) (DownloadError u io)
      download_and_decrypt_batch (batch_index, batch_indices) = do
        batch ← download_batch batch_indices
        lift (decrypt_batch batch_index batch location version file_key)

      -- The closure that writes a batch in `download_and_decrypt_file_async`.
      unfoldable pub write_indexed : ℕ × (List Bytes × ℕ) → Eff W ℕ (DownloadError u io)
      write_indexed (index, (batch, encrypted_size)) =
          write_batch batch encrypted_size (get_file_chunk_location u location index)

      unfoldable pub download_and_decrypt_file_async : Eff W ℕ (DownloadError u io)
      download_and_decrypt_file_async = do
        let batches = batch_chunks location.chunks async_chunk_batch_size
        decrypted_batches ← traverse download_and_decrypt_batch (enumerate 0 batches)
        written_lengths ← traverse write_indexed (enumerate 0 decrypted_batches)
        context cannot_flush_writer io.flush
        lift (ok (sum_u64 written_lengths))
