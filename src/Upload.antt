-- ===== src/Upload.antt =====
-- The upload of a file: src/v1/upload_file.rs. The network, the reader and the random generator are
-- parameters.
pub mod Accepted
pub mod Accepting
pub mod Complete
pub mod EncryptAndUpload
pub mod Failures
pub mod Finalized
pub mod Locations
pub mod Total
pub mod Whole
use Prim.Native.String.{String}
use rust_filen.Base.{
  ℕ, ◌+◌, ◌*◌, ◌^◌, ◌<◌, ◌≡◌, refl, List, [], ◌∷◌, ◌++◌, Option, none, some, Bool, true, false,
  Result, ok, err, Outcome, returns, panics, ensure, ltb, ◌==◌, if◌then◌else◌, length, map, map_err,
  enumerate,
}
use rust_filen.Base.Text.{Bytes, codes}
use rust_filen.Base.Decimal.{decimal}
use rust_filen.Base.Effects.{Eff, ◌>>=◌, ◌>>◌, lift, context, traverse}
use rust_filen.Backoff.{RetrySettings, Retry, call}
use rust_filen.Names.{Uuids, Expire, print_expire}
use rust_filen.Chunks.{FileChunkPosition, dummy_chunk_index}
use rust_filen.Crypto.Primitives.{Ciphers, CryptoError}
use rust_filen.Crypto.FileChunk.{encrypt_file_chunk}
use rust_filen.Api.{ResponsePayload, PlainResponsePayload}
use rust_filen.Download.{FileChunkLocation}

-- `FILE_CHUNK_SIZE` and `UPLOAD_PATH`
abbrev pub file_chunk_size : ℕ
file_chunk_size = 1024 * 1024

abbrev pub upload_path : Bytes
upload_path = codes "/v1/upload"

pub record UploadFileChunkResponseData : Type 0 where
  pub bucket : Bytes
  pub region : Bytes
  pub expire_set : Bool
  pub expire_timestamp : ℕ
  pub delete_timestamp : ℕ

abbrev pub UploadFileChunkResponsePayload : Type 0
UploadFileChunkResponsePayload = ResponsePayload UploadFileChunkResponseData

module _ (u : Uuids) where
  pub record UploadDoneRequestPayload : Type 0 where
    pub uuid : u.Uuid
    pub upload_key : Bytes

  pub record FileUploadProperties : Type 0 where
    pub uuid : u.Uuid
    pub name_metadata : Bytes
    pub name_hashed : Bytes
    pub size_metadata : Bytes
    pub chunks : ℕ
    pub mime_metadata : Bytes
    pub file_metadata : Bytes
    pub file_key : Bytes
    pub rm : Bytes
    pub upload_key : Bytes
    pub expire : Expire
    pub parent_uuid : u.Uuid
    pub version : ℕ

  pub record FileUploadInfo : Type 0 where
    pub properties : FileUploadProperties
    pub chunk_responses : List UploadFileChunkResponsePayload

  -- What the upload uses of the world: the query part of a URL as the crate `url` builds it, the
  -- reader, the random text that an encryption draws, and the requests of `queries`.
  pub record UploadIo (W : Type 0) : Type 1 where
    pub QueryError : Type 0
    pub IoError : Type 0
    pub query_of : List (Bytes × Bytes) → Bytes
    pub seek : ℕ → Eff W (Unit {0}) IoError
    pub read_exact : ℕ → Eff W Bytes IoError
    pub draw_iv : W → Bytes × W
    pub upload_to_filen : Bytes → Bytes → Eff W UploadFileChunkResponsePayload QueryError
    pub upload_done : UploadDoneRequestPayload → Eff W PlainResponsePayload QueryError

module _ (u : Uuids) (c : Ciphers) {W : Type 0} (io : UploadIo u W) where
  -- `upload_file::Error`
  pub data UploadError : Type 0 where
    bad_argument : String → UploadError
    chunk_encryption_error : ℕ → ℕ → ℕ → CryptoError → UploadError
    chunk_not_accepted : Bytes → UploadError
    could_not_mark_done : Option Bytes → UploadError
    chunk_upload_response_missing_data : FileUploadInfo u → UploadError
    dummy_chunk_not_accepted : Bytes → UploadError
    file_key_should_have_32_chars : UploadError
    seek_read_error : io.IoError → UploadError
    upload_query_failed : Bytes → ℕ → io.QueryError → UploadError
    upload_done_query_failed : io.QueryError → UploadError

  -- `FileUploadProperties::to_query_params`
  unfoldable pub to_query_params : FileUploadProperties u → ℕ → Bytes → Bytes
  to_query_params p chunk_index api_key = io.query_of (
      (codes "apiKey", api_key)
      ∷ (codes "uuid", u.hyphenated p.uuid)
      ∷ (codes "name", p.name_metadata)
      ∷ (codes "nameHashed", p.name_hashed)
      ∷ (codes "size", p.size_metadata)
      ∷ (codes "chunks", decimal p.chunks)
      ∷ (codes "mime", p.mime_metadata)
      ∷ (codes "index", decimal chunk_index)
      ∷ (codes "rm", p.rm)
      ∷ (codes "expire", print_expire p.expire)
      ∷ (codes "uploadKey", p.upload_key)
      ∷ (codes "metaData", p.file_metadata)
      ∷ (codes "parent", u.hyphenated p.parent_uuid)
      ∷ (codes "version", decimal p.version)
      ∷ [])

  -- `FileUploadProperties::to_api_endpoint`
  unfoldable pub to_api_endpoint : FileUploadProperties u → ℕ → Bytes → Bytes
  to_api_endpoint p chunk_index api_key =
      upload_path ++ b'?' ∷ to_query_params p chunk_index api_key

  -- `try_into().context(FileKeyShouldHave32CharsSnafu)`
  abbrev file_key_bytes : Bytes → Result Bytes UploadError
  file_key_bytes key = if length key == 32 then ok key else err file_key_should_have_32_chars

  -- `encrypt_file_chunk` with a drawn IV.
  draw_and_encrypt : Bytes → Bytes → ℕ → Eff W Bytes UploadError
  draw_and_encrypt chunk key version w =
      let (iv, w') = io.draw_iv w in
      returns (
        map_err (chunk_encryption_error (length chunk) (length key) version)
            (encrypt_file_chunk c chunk key version iv),
        w',
      )

  module _ (api_key : Bytes) (properties : FileUploadProperties u) where
    unfoldable pub encrypt_and_upload_chunk :
        ℕ → Bytes → Eff W UploadFileChunkResponsePayload UploadError
    unfolding draw_and_encrypt
    encrypt_and_upload_chunk chunk_index chunk = do
      key ← lift (file_key_bytes properties.file_key)
      chunk_encrypted ← draw_and_encrypt chunk key properties.version
      let api_endpoint = to_api_endpoint properties chunk_index api_key
      context (upload_query_failed api_endpoint (length chunk_encrypted))
          (io.upload_to_filen api_endpoint chunk_encrypted)

    -- The `seek` and `read_exact` of `read_into_chunks_and_process`.
    unfoldable pub read_chunk : FileChunkPosition → Eff W Bytes UploadError
    read_chunk position =
        context seek_read_error
          (io.seek position.start_position >> io.read_exact position.chunk_size)

    module _ (retry : Retry W) (settings : RetrySettings) where
      -- What becomes of a chunk that was read or not: `flatten` on the iterator drops the error of a
      -- chunk that could not be read, and keeps the result of the upload of one that was.
      process :
          FileChunkPosition
          → Outcome (Result Bytes UploadError × W)
          → Outcome (Result (Option UploadFileChunkResponsePayload) UploadError × W)
      process position panics = panics
      process position (returns (err e, w)) = returns (ok none, w)
      process position (returns (ok chunk, w)) =
          (call retry settings (encrypt_and_upload_chunk position.index chunk) >>= λ r.
          lift (ok (some r)))
            w

      unfoldable pub upload_position :
          FileChunkPosition → Eff W (Option UploadFileChunkResponsePayload) UploadError
      unfolding process
      upload_position position w = process position (read_chunk position w)

      -- The responses that are there.
      abbrev pub somes :
          List (Option UploadFileChunkResponsePayload) → List UploadFileChunkResponsePayload
      somes [] = []
      somes (none ∷ rs) = somes rs
      somes (some r ∷ rs) = r ∷ somes rs

      -- `upload_chunks`, over the positions of the file's chunks.
      unfoldable pub upload_chunks :
          List FileChunkPosition → Eff W (List UploadFileChunkResponsePayload) UploadError
      upload_chunks positions =
          traverse upload_position positions >>= λ responses. lift (ok (somes responses))

      unfoldable pub send_dummy_chunk : ℕ → ℕ → Eff W UploadFileChunkResponsePayload UploadError
      send_dummy_chunk chunk_size file_size =
          lift (ensure (ltb 0 file_size) (bad_argument "file size should be > 0"))
          >> call retry settings
              (encrypt_and_upload_chunk (dummy_chunk_index chunk_size file_size) [])
