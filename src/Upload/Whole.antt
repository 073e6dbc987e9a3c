-- ===== src/Upload/Whole.antt =====
-- `encrypt_and_upload_file` of src/v1/upload_file.rs from the upload properties and the positions of
-- the chunks on; EncryptAndUpload makes those.
use rust_filen.Base.{ℕ, List, [], ◌∷◌, Option, none, some, ok, err, if◌then◌else◌}
use rust_filen.Base.Text.{Bytes, codes}
use rust_filen.Base.Effects.{Eff, ◌>>=◌, lift, context}
use rust_filen.Backoff.{RetrySettings, Retry, call}
use rust_filen.Names.{Uuids}
use rust_filen.Chunks.{FileChunkPosition}
use rust_filen.Crypto.Primitives.{Ciphers}
use rust_filen.Upload.{
  file_chunk_size, UploadFileChunkResponsePayload, UploadDoneRequestPayload, FileUploadProperties,
  FileUploadInfo, UploadIo, UploadError, chunk_not_accepted, could_not_mark_done,
  dummy_chunk_not_accepted, upload_done_query_failed, upload_chunks, send_dummy_chunk,
}

-- `iter().find(|r| !r.status)`
abbrev pub find_failed : List UploadFileChunkResponsePayload → Option UploadFileChunkResponsePayload
find_failed [] = none
find_failed (r ∷ rs) = if r.status then find_failed rs else some r

-- `message.unwrap_or("unknown reason")`
abbrev pub reason : Option Bytes → Bytes
reason none = codes "unknown reason"
reason (some message) = message

module _ (u : Uuids) (c : Ciphers) {W : Type 0} (io : UploadIo u W) where
  -- With the failed response that was found, if there is one.
  abbrev pub finalize_unless :
      {A : Type 0}
      → Option UploadFileChunkResponsePayload
      → Eff W A (UploadError u c io)
      → Eff W A (UploadError u c io)
  finalize_unless (some failed) action = lift (err (chunk_not_accepted (reason failed.message)))
  finalize_unless none action = action

  unfoldable pub finalize_chunks_if_all_uploaded :
      {A : Type 0}
      → List UploadFileChunkResponsePayload
      → (List UploadFileChunkResponsePayload → Eff W A (UploadError u c io))
      → Eff W A (UploadError u c io)
  finalize_chunks_if_all_uploaded responses finalize_action =
      finalize_unless (find_failed responses) (finalize_action responses)

  module _ (retry : Retry W) (settings : RetrySettings) (api_key : Bytes) (file_size : ℕ)
      (properties : FileUploadProperties u) where
    abbrev pub upload_done_payload : UploadDoneRequestPayload u
    upload_done_payload = record { uuid = properties.uuid; upload_key = properties.upload_key }

    -- What follows the dummy chunk's response.
    unfoldable pub mark_done :
        List UploadFileChunkResponsePayload
        → UploadFileChunkResponsePayload
        → Eff W (FileUploadInfo u) (UploadError u c io)
    mark_done responses dummy_chunk_response =
        if dummy_chunk_response.status
        then (do
          mark_done_response ←
              call retry settings
                (context upload_done_query_failed (io.upload_done upload_done_payload))
          lift (
              if mark_done_response.status
              then ok (record { properties = properties; chunk_responses = responses })
              else err (could_not_mark_done mark_done_response.message)))
        else lift (err (dummy_chunk_not_accepted (reason dummy_chunk_response.message)))

    -- The closure `finalize_action`.
    unfoldable pub finalize_action :
        List UploadFileChunkResponsePayload → Eff W (FileUploadInfo u) (UploadError u c io)
    finalize_action responses =
        send_dummy_chunk u c io api_key properties retry settings file_chunk_size file_size
        >>= mark_done responses

    -- `encrypt_and_upload_file` once it has the upload properties and the positions of the chunks.
    unfoldable pub upload_and_finalize :
        List FileChunkPosition → Eff W (FileUploadInfo u) (UploadError u c io)
    upload_and_finalize positions = do
      responses ← upload_chunks u c io api_key properties retry settings positions
      finalize_chunks_if_all_uploaded responses finalize_action
