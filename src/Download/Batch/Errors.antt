-- ===== src/Download/Batch/Errors.antt =====
-- Which chunk `decrypt_batch` of src/v1/download_file.rs blames.
use rust_filen.Base.{
  ℕ, suc, ◌+◌, ◌≡◌, refl, ◌∙◌, List, [], ◌∷◌, ◌++◌, true, err, arith, length, ◌==◌,
}
use rust_filen.Base.Text.{Bytes}
use rust_filen.Names.{Uuids}
use rust_filen.Crypto.Primitives.{Ciphers, CryptoError}
use rust_filen.Crypto.FileChunk.{decrypt_file_chunk}
use rust_filen.Chunks.Machine.{add_u32}
use rust_filen.Download.{
  Io, FileLocation, get_file_chunk_location, DownloadError, cannot_decrypt_file_chunk, open_chunk,
}
use rust_filen.Download.Promises.{Decrypts}
use rust_filen.Download.Sequential.{opens}
use rust_filen.Download.Batch.{decrypt_chunks, decrypt_batch}

module _ (u : Uuids) (c : Ciphers) {W : Type 0} (io : Io W) (location : FileLocation u)
    (version : ℕ) (key : Bytes) (len : length key ≡ 32) (bi : ℕ) (x : CryptoError) (e : Bytes)
    (after : List Bytes) (fails : decrypt_file_chunk c e key version ≡ err x) where
  blamed : ℕ → DownloadError u io
  blamed index =
      cannot_decrypt_file_chunk (length e) (get_file_chunk_location u location (add_u32 bi index)) x

  open-err :
      (index : ℕ)
      → open_chunk u io c (get_file_chunk_location u location (add_u32 bi index)) key version e
        ≡ err (blamed index)
  unfolding open_chunk blamed
  open-err index =
      let t : (length key == 32) ≡ true = ground arith in rw (t, fails, open_chunk) refl

  blames :
      (before plain : List Bytes) (index : ℕ)
      → Decrypts c key version before plain
      → decrypt_chunks u c io bi location version key index (before ++ e ∷ after)
        ≡ err (blamed (index + length before))
  unfolding decrypt_chunks
  blames [] plain index h =
      let same : index + 0 ≡ index = omega arith in rw (open-err index, same, decrypt_chunks) refl
  blames (b ∷ before) [] index h = absurd (cc h)
  blames (b ∷ before) (p ∷ plain) index (h, hs) =
      let first =
        opens u c io key version len (get_file_chunk_location u location (add_u32 bi index)) b p
          h in
      let same : (index + 1) + length before ≡ index + suc (length before) = omega arith in
      rw (first, blames before plain (index + 1) hs, same, decrypt_chunks) refl

-- If the chunks before one in a batch decrypt and that one does not, `decrypt_batch` fails with an
-- error that names the chunk whose index is the batch's index plus the place in the batch.
pub decrypt_batch-err :
    (u : Uuids) (c : Ciphers) {W : Type 0} (io : Io W) (location : FileLocation u)
    (version batch_index : ℕ) (key encrypted : Bytes) (before plain after : List Bytes)
    (x : CryptoError)
    → length key ≡ 32
    → Decrypts c key version before plain
    → decrypt_file_chunk c encrypted key version ≡ err x
    → decrypt_batch u c io batch_index (before ++ encrypted ∷ after) location version key
      ≡ err (
          cannot_decrypt_file_chunk
            (length encrypted)
            (get_file_chunk_location u location (add_u32 batch_index (length before)))
            x)
unfolding decrypt_batch blamed
decrypt_batch-err u c {W} io location version bi key e before plain after x len opened fails =
    let same : 0 + length before ≡ length before = omega arith in
    blames u c io location version key len bi x e after fails before plain 0 opened ∙ rw (same) refl
