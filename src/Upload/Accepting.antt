-- ===== src/Upload/Accepting.antt =====
-- The steps of an upload of src/v1/upload_file.rs to servers that answer and accept everything.
use rust_filen.Base.{
  ℕ, ◌<◌, ◌≡◌, refl, ap, ◌∙◌, List, [], ◌∷◌, Option, none, some, true, ok, returns, All, arith,
  length, take, ◌==◌, lt→ltb, length-take,
}
use rust_filen.Base.Text.{Bytes}
use rust_filen.Base.Effects.{Eff, context, traverse}
use rust_filen.Backoff.{RetrySettings, Retry, call}
use rust_filen.Backoff.Call.{IsRetry, call-first}
use rust_filen.Names.{Uuids}
use rust_filen.Api.{PlainResponsePayload}
use rust_filen.Chunks.{FileChunkPosition, dummy_chunk_index}
use rust_filen.Chunks.Cover.{slice}
use rust_filen.Crypto.Primitives.{Ciphers}
use rust_filen.Crypto.Aes.{bytes_to_binary_string}
use rust_filen.Crypto.FileChunk.{encrypt_file_chunk, aes_cbc_iv_from_key}
use rust_filen.Upload.{
  file_chunk_size, UploadFileChunkResponsePayload, UploadDoneRequestPayload, FileUploadProperties,
  FileUploadInfo, UploadIo, UploadError, upload_done_query_failed, to_api_endpoint,
  encrypt_and_upload_chunk, draw_and_encrypt, read_chunk, process, upload_position, somes,
  upload_chunks, send_dummy_chunk,
}
use rust_filen.Upload.Accepted.{IsUploadIo, InFile}
use rust_filen.Upload.Finalized.{IsAccepted}
use rust_filen.Upload.Whole.{
  find_failed, finalize_chunks_if_all_uploaded, upload_done_payload, mark_done, finalize_action,
  upload_and_finalize,
}

-- Servers that answer every upload and every done request, and accept them.
pub record Accepts {u : Uuids} {W : Type 0} (io : UploadIo u W) : Type 0 where
  pub uploads :
      (endpoint body : Bytes) (w : W)
      → (r : UploadFileChunkResponsePayload) × (w' : W) × (io.upload_to_filen endpoint body w
          ≡ returns (ok r, w'))
        × (r.status ≡ true)
  pub done :
      (payload : UploadDoneRequestPayload u) (w : W)
      → (r : PlainResponsePayload) × (w' : W) × (io.upload_done payload w ≡ returns (ok r, w'))
        × (r.status ≡ true)

-- In version 1 a chunk is always encrypted, with a key of 32 bytes.
encrypt_file_chunk-total :
    (c : Ciphers) (chunk key iv : Bytes)
    → length key ≡ 32
    → (body : Bytes) × (encrypt_file_chunk c chunk key 1 iv ≡ ok body)
unfolding encrypt_file_chunk aes_cbc_iv_from_key
encrypt_file_chunk-total c [] key iv h = ([], refl)
encrypt_file_chunk-total c (b ∷ chunk) key iv h =
    let half : (length (take 16 key) == 16) ≡ true = ground (arith, length-take 16 key, h) in
    (
      bytes_to_binary_string (c.cbc_encrypt key (take 16 key) (b ∷ chunk)),
      rw (half, aes_cbc_iv_from_key) refl,
    )

find_failed-All :
    (rs : List UploadFileChunkResponsePayload) → All IsAccepted rs → find_failed rs ≡ none
find_failed-All [] h = refl
find_failed-All (r ∷ rs) (hr, hs) = rw hr (find_failed-All rs hs)

module _ (u : Uuids) (c : Ciphers) {W : Type 0} (io : UploadIo u W) (accepts : Accepts io)
    (retry : Retry W) (content : Bytes) (log : W → List (Bytes × Bytes))
    (lawful : IsUploadIo io content log) (retries : IsRetry retry) (settings : RetrySettings)
    (api_key : Bytes) (properties : FileUploadProperties u)
    (keyed : length properties.file_key ≡ 32) (first_version : properties.version ≡ 1) where
  abbrev upload : ℕ → Bytes → Eff W UploadFileChunkResponsePayload (UploadError u c io)
  upload = encrypt_and_upload_chunk u c io api_key properties

  uploaded :
      (i : ℕ) (chunk : Bytes) (w : W)
      → (r : UploadFileChunkResponsePayload) × (w' : W) × (call retry settings (upload i chunk) w
          ≡ returns (ok r, w'))
        × (r.status ≡ true)
  unfolding encrypt_and_upload_chunk draw_and_encrypt
  uploaded i chunk w =
      let iv = (io.draw_iv w).0 in
      let (body, encrypted_1) = encrypt_file_chunk-total c chunk properties.file_key iv keyed in
      let encrypted : encrypt_file_chunk c chunk properties.file_key properties.version iv
          ≡ ok body =
        ap (λ (v : ℕ). encrypt_file_chunk c chunk properties.file_key v iv) first_version
        ∙ encrypted_1 in
      let fits : (length properties.file_key == 32) ≡ true = ground (arith, keyed) in
      let (r, w', answered, status) =
        accepts.uploads (to_api_endpoint u c io properties i api_key) body (io.draw_iv w).1 in
      (
        r,
        w',
        call-first retry retries UploadFileChunkResponsePayload (UploadError u c io) settings
            (upload i chunk) w w' r
            (rw (fits, encrypted, answered, encrypt_and_upload_chunk, draw_and_encrypt) refl),
        status,
      )

  positioned :
      (position : FileChunkPosition) (w : W)
      → InFile content position
      → (r : UploadFileChunkResponsePayload) × (w' : W) × (upload_position u c io api_key properties
            retry settings position w
          ≡ returns (ok (some r), w'))
        × (r.status ≡ true)
  unfolding upload_position process read_chunk
  positioned position w inside =
      let (v, read, _) = lawful.reads position.start_position position.chunk_size w inside in
      let (r, w', answered, status) = uploaded position.index (slice content position) v in
      (r, w', rw (read, read_chunk, process, answered) refl, status)

  each :
      (positions : List FileChunkPosition) (w : W)
      → All (InFile content) positions
      → (os : List (Option UploadFileChunkResponsePayload)) × (w' : W) × (traverse
            (upload_position u c io api_key properties retry settings)
            positions
            w
          ≡ returns (ok os, w'))
        × All IsAccepted (somes u c io api_key properties retry settings os)
  unfolding traverse
  each [] w inside = ([], w, refl, tt)
  each (position ∷ positions) w (here, later) =
      let (r, w_1, e, status) = positioned position w here in
      let (os, w_2, es, accepted) = each positions w_1 later in
      (some r ∷ os, w_2, rw (e, es) refl, (status, accepted))

  chunks_uploaded :
      (positions : List FileChunkPosition) (w : W)
      → All (InFile content) positions
      → (rs : List UploadFileChunkResponsePayload) × (w' : W) × (upload_chunks u c io api_key
            properties retry settings positions w
          ≡ returns (ok rs, w'))
        × All IsAccepted rs
  unfolding upload_chunks
  chunks_uploaded positions w inside =
      let (os, w', e, accepted) = each positions w inside in
      (somes u c io api_key properties retry settings os, w', rw e refl, accepted)

  dummy_sent :
      (w : W)
      → 0 < length content
      → (r : UploadFileChunkResponsePayload) × (w' : W) × (send_dummy_chunk u c io api_key
            properties retry settings file_chunk_size
            (length content)
            w
          ≡ returns (ok r, w'))
        × (r.status ≡ true)
  unfolding send_dummy_chunk
  dummy_sent w more =
      let test = lt→ltb 0 (length content) more in
      let (r, w', answered, status) =
        uploaded (dummy_chunk_index file_chunk_size (length content)) [] w in
      (r, w', rw (test, answered) refl, status)

  marked :
      (responses : List UploadFileChunkResponsePayload) (r : UploadFileChunkResponsePayload) (w : W)
      → r.status ≡ true
      → (w' : W) × (mark_done u c io retry settings api_key
            (length content)
            properties
            responses
            r
            w
          ≡ returns (ok (record { properties = properties; chunk_responses = responses }), w'))
  unfolding mark_done
  marked responses r w status =
      let payload = upload_done_payload u c io retry settings api_key (length content) properties in
      let (answer, w', answered, accepted) = accepts.done payload w in
      let asked : call retry settings (context upload_done_query_failed (io.upload_done payload)) w
          ≡ returns (ok answer, w') =
        call-first retry retries PlainResponsePayload (UploadError u c io) settings
          (context upload_done_query_failed (io.upload_done payload)) w w' answer
          (rw answered refl) in
      (w', rw (status, mark_done, asked, accepted) refl)

  pub finalized :
      (positions : List FileChunkPosition) (w : W)
      → 0 < length content
      → All (InFile content) positions
      → (info : FileUploadInfo u) × (w' : W) × (upload_and_finalize u c io retry settings api_key
            (length content)
            properties
            positions
            w
          ≡ returns (ok info, w'))
  unfolding upload_and_finalize finalize_chunks_if_all_uploaded finalize_action
  finalized positions w more inside =
      let (rs, w_1, sent, accepted) = chunks_uploaded positions w inside in
      let (r, w_2, dummy, status) = dummy_sent w_1 more in
      let (w_3, done) = marked rs r w_2 status in
      (
        record { properties = properties; chunk_responses = rs },
        w_3,
        rw
            (
              sent,
              upload_and_finalize,
              find_failed-All rs accepted,
              finalize_chunks_if_all_uploaded,
              finalize_action,
              dummy,
              done,
            )
            refl,
      )
