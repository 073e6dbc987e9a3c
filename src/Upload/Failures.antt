-- ===== src/Upload/Failures.antt =====
-- What `encrypt_and_upload_file` of src/v1/upload_file.rs does with chunks that cannot be read and with
-- chunks that are not accepted.
use rust_filen.Base.{
  ℕ, ◌≡◌, refl, List, [], ◌∷◌, ◌++◌, Option, none, some, true, false, ok, err, returns, All,
}
use rust_filen.Base.Text.{Bytes}
use rust_filen.Base.Effects.{traverse}
use rust_filen.Backoff.{RetrySettings, Retry}
use rust_filen.Names.{Uuids}
use rust_filen.Chunks.{FileChunkPosition}
use rust_filen.Crypto.Primitives.{Ciphers}
use rust_filen.Upload.{
  UploadFileChunkResponsePayload, FileUploadProperties, UploadIo, chunk_not_accepted,
  seek_read_error, read_chunk, process, upload_position, somes, upload_chunks,
}
use rust_filen.Upload.Whole.{
  find_failed, finalize_chunks_if_all_uploaded, reason, upload_and_finalize,
}

module _ (u : Uuids) (c : Ciphers) {W : Type 0} (io : UploadIo u W) (retry : Retry W)
    (settings : RetrySettings) (api_key : Bytes) (properties : FileUploadProperties u) where
  -- No chunk of the file can be read.
  abbrev pub Unreadable : Type 0
  Unreadable =
      (position : FileChunkPosition) (w : W)
      → (e : io.IoError) × (read_chunk u c io api_key properties position w
          ≡ returns (err (seek_read_error e), w))

  drop-position :
      Unreadable
      → (position : FileChunkPosition) (w : W)
      → upload_position u c io api_key properties retry settings position w ≡ returns (ok none, w)
  unfolding upload_position
  drop-position h position w = let (e, found) = h position w in rw (found, process) refl

  all_dropped :
      Unreadable
      → (positions : List FileChunkPosition) (w : W)
      → (rs : List (Option UploadFileChunkResponsePayload)) × (traverse
            (upload_position u c io api_key properties retry settings)
            positions
            w
          ≡ returns (ok rs, w))
        × (somes u c io api_key properties retry settings rs ≡ [])
  unfolding traverse
  all_dropped h [] w = ([], refl, refl)
  all_dropped h (position ∷ positions) w =
      let (rs, e, nothing) = all_dropped h positions w in
      (none ∷ rs, rw (drop-position h position w, e) refl, nothing)

find_failed-append :
    (before after : List UploadFileChunkResponsePayload) (failed : UploadFileChunkResponsePayload)
    → All (λ (r : UploadFileChunkResponsePayload). r.status ≡ true) before
    → failed.status ≡ false
    → find_failed (before ++ failed ∷ after) ≡ some failed
find_failed-append [] after failed h f = rw f
find_failed-append (b ∷ before) after failed (hb, hs) f =
    rw (hb) (find_failed-append before after failed hs f)

-- Chunks that cannot be read are left out without an error: if none can be read, `upload_chunks`
-- succeeds with no response and without an upload.
pub upload_chunks-Unreadable :
    (u : Uuids) (c : Ciphers) {W : Type 0} (io : UploadIo u W) (retry : Retry W)
    (settings : RetrySettings) (api_key : Bytes) (properties : FileUploadProperties u)
    → Unreadable u c io retry settings api_key properties
    → (positions : List FileChunkPosition) (w : W)
    → upload_chunks u c io api_key properties retry settings positions w ≡ returns (ok [], w)
unfolding upload_chunks
upload_chunks-Unreadable u c {W} io retry settings api_key properties h positions w =
    let (rs, e, nothing) = all_dropped u c io retry settings api_key properties h positions w in
    rw (e, nothing) refl

-- If the server does not accept a chunk, the upload fails with the message of the first such response,
-- and neither the dummy chunk nor the done request is sent: the state is the one after the chunks. Stated
-- for the upload properties and positions given.
pub upload_and_finalize_not_accepted :
    (u : Uuids) (c : Ciphers) {W : Type 0} (io : UploadIo u W) (retry : Retry W)
    (settings : RetrySettings) (api_key : Bytes) (file_size : ℕ)
    (properties : FileUploadProperties u) (positions : List FileChunkPosition)
    (before after : List UploadFileChunkResponsePayload) (failed : UploadFileChunkResponsePayload)
    (w w' : W)
    → upload_chunks u c io api_key properties retry settings positions w
      ≡ returns (ok (before ++ failed ∷ after), w')
    → All (λ (r : UploadFileChunkResponsePayload). r.status ≡ true) before
    → failed.status ≡ false
    → upload_and_finalize u c io retry settings api_key file_size properties positions w
      ≡ returns (err (chunk_not_accepted (reason failed.message)), w')
unfolding upload_and_finalize finalize_chunks_if_all_uploaded
upload_and_finalize_not_accepted u c {W} io retry settings api_key size properties positions before
      after failed w w' h accepted f =
    rw (h, find_failed-append before after failed accepted f) refl
