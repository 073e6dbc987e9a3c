-- ===== src/Upload/EncryptAndUpload.antt =====
-- `encrypt_and_upload_file` of src/v1/upload_file.rs, which makes the upload properties and the iterator
-- over the positions of the chunks.
use mathlib.Core.Option
use rust_filen.Base.{ℕ, Option, none, some, Result, Outcome, returns, panics}
use rust_filen.Base.Text.{Bytes}
use rust_filen.Backoff.{RetrySettings, Retry}
use rust_filen.Names.{Uuids}
use rust_filen.Chunks.{FileChunkPositions, new, collect}
use rust_filen.Crypto.Primitives.{Ciphers}
use rust_filen.Files.{FileProperties, Texts}
use rust_filen.Files.Upload.{UploadDraws, from_file_properties}
use rust_filen.Upload.{file_chunk_size, FileUploadProperties, FileUploadInfo, UploadIo, UploadError}
use rust_filen.Upload.Whole.{upload_and_finalize}

module _ (u : Uuids) (t : Texts) (c : Ciphers) {W : Type 0} (io : UploadIo u W) (retry : Retry W)
    (settings : RetrySettings) (api_key : Bytes) where
  abbrev pub Uploaded : Type 0
  Uploaded = Outcome (Result (FileUploadInfo u) (UploadError u c io) × W)

  -- With the iterator made, whose items `read_into_chunks_and_process` goes through.
  unfoldable pub with_positions :
      ℕ → ℕ → FileUploadProperties u → Outcome FileChunkPositions → W → Option Uploaded
  with_positions fuel size properties panics w = some panics
  with_positions fuel size properties (returns positions) w =
      Option.map (λ ps. upload_and_finalize u c io retry settings api_key size properties ps w)
        (collect fuel positions)

  -- With the upload properties made.
  unfoldable pub with_properties : ℕ → ℕ → Outcome (FileUploadProperties u) → W → Option Uploaded
  with_properties fuel size panics w = some panics
  with_properties fuel size (returns properties) w =
      with_positions fuel size properties (new file_chunk_size size) w

  -- `encrypt_and_upload_file`, with `fuel` rounds for the count of the chunks and as many calls of the
  -- iterator; `none` means that they did not suffice.
  unfoldable pub encrypt_and_upload_file :
      ℕ → FileProperties → ℕ → u.Uuid → Bytes → UploadDraws u → W → Option Uploaded
  encrypt_and_upload_file fuel p version parent_uuid last_master_key draws w =
      elim (from_file_properties u t c fuel p version parent_uuid last_master_key draws) [
        | none ↦ none
        | some properties ↦ with_properties fuel p.size properties w
      ]
