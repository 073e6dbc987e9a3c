-- ===== src/Download.antt =====
-- The download of a file: src/v1/download_file.rs, with the endpoint that src/utils.rs builds. The
-- network and the writer are parameters.
pub mod Batch
pub mod Endpoint
pub mod Promises
pub mod Sequential
use rust_filen.Base.{
  ℕ, ◌+◌, ◌^◌, ◌%◌, List, [], ◌∷◌, ◌++◌, Bool, true, false, ◌&&◌, Result, ok, err, ◌==◌,
  if◌then◌else◌, length, map_err, range, sum_u64, ◌≡◌, refl,
}
use rust_filen.Base.Text.{Bytes, codes}
use rust_filen.Base.Decimal.{decimal}
use rust_filen.Base.Effects.{Eff, ◌>>=◌, ◌>>◌, lift, context, traverse}
use rust_filen.Backoff.{RetrySettings, Retry, call}
use rust_filen.Names.{Uuids}
use rust_filen.Crypto.Primitives.{Ciphers, CryptoError}
use rust_filen.Crypto.FileChunk.{decrypt_file_chunk}

-- What the download uses of the world: `queries::download_from_filen` on an endpoint, and the writer's
-- `write_all` and `flush`. `QueryError` and `IoError` are `queries::Error` and `std::io::Error`.
pub record Io (W : Type 0) : Type 1 where
  pub QueryError : Type 0
  pub IoError : Type 0
  pub download_from_filen : Bytes → Eff W Bytes QueryError
  pub write_all : Bytes → Eff W (Unit {0}) IoError
  pub flush : Eff W (Unit {0}) IoError

-- `.replace("//", "/")`
abbrev replace_double_slash : Bytes → Bytes
replace_double_slash [] = []
replace_double_slash (a ∷ []) = a ∷ []
replace_double_slash (a ∷ b ∷ s) = elim (a == b'/' && b == b'/') [
  | true ↦ b'/' ∷ replace_double_slash s
  | false ↦ a ∷ replace_double_slash (b ∷ s)
]

module _ (u : Uuids) where
  pub record FileLocation : Type 0 where
    pub region : Bytes
    pub bucket : Bytes
    pub file_uuid : u.Uuid
    pub chunks : ℕ

  pub record FileChunkLocation : Type 0 where
    pub region : Bytes
    pub bucket : Bytes
    pub file_uuid : u.Uuid
    pub chunk_index : ℕ

  -- `FileLocation::get_file_chunk_location`
  abbrev pub get_file_chunk_location : FileLocation → ℕ → FileChunkLocation
  get_file_chunk_location location chunk_index = record {
    region = location.region;
    bucket = location.bucket;
    file_uuid = location.file_uuid;
    chunk_index = chunk_index;
  }

  -- `utils::filen_file_address_to_api_endpoint`
  unfoldable pub filen_file_address_to_api_endpoint : Bytes → Bytes → u.Uuid → ℕ → Bytes
  filen_file_address_to_api_endpoint region bucket file_uuid chunk_index =
      replace_double_slash (
        region
        ++ (b'/' ∷ bucket ++ (b'/' ∷ u.hyphenated file_uuid ++ (b'/' ∷ decimal chunk_index))))

  -- `utils::filen_file_location_to_api_endpoint`
  abbrev pub filen_file_location_to_api_endpoint : FileChunkLocation → Bytes
  filen_file_location_to_api_endpoint location =
      filen_file_address_to_api_endpoint location.region location.bucket location.file_uuid
        location.chunk_index

module _ (u : Uuids) {W : Type 0} (io : Io W) where
  -- `download_file::Error`
  pub data DownloadError : Type 0 where
    cannot_download_file_chunk : FileChunkLocation u → io.QueryError → DownloadError
    cannot_write_file_chunk : ℕ → FileChunkLocation u → io.IoError → DownloadError
    cannot_flush_writer : io.IoError → DownloadError
    cannot_decrypt_file_chunk : ℕ → FileChunkLocation u → CryptoError → DownloadError
    invalid_file_key_size : DownloadError

  unfoldable pub download_file_chunk : FileChunkLocation u → Eff W Bytes DownloadError
  download_file_chunk location =
      context (cannot_download_file_chunk location)
        (io.download_from_filen (filen_file_location_to_api_endpoint u location))

  -- `file_key.unsecure().as_bytes().try_into()`
  abbrev pub file_key_bytes : Bytes → Result Bytes DownloadError
  file_key_bytes key = if length key == 32 then ok key else err invalid_file_key_size

  -- The key of a chunk and its decryption.
  unfoldable pub open_chunk :
      Ciphers → FileChunkLocation u → Bytes → ℕ → Bytes → Result Bytes DownloadError
  open_chunk c location file_key version encrypted = elim (file_key_bytes file_key) [
    | ok key ↦
        map_err (cannot_decrypt_file_chunk (length encrypted) location)
          (decrypt_file_chunk c encrypted key version)
    | err e ↦ err e
  ]

module _ (u : Uuids) (c : Ciphers) {W : Type 0} (io : Io W) (retry : Retry W)
    (settings : RetrySettings) (location : FileLocation u) (version : ℕ) (file_key : Bytes) where
  -- The closure over the chunk indices in `download_and_decrypt_file`.
  unfoldable pub download_and_write_chunk : ℕ → Eff W ℕ (DownloadError u io)
  download_and_write_chunk chunk_index = do
    let file_chunk_location = get_file_chunk_location u location chunk_index
    encrypted ← call retry settings (download_file_chunk u io file_chunk_location)
    decrypted ← lift (open_chunk u io c file_chunk_location file_key version encrypted)
    context (cannot_write_file_chunk (length decrypted) file_chunk_location)
        (io.write_all decrypted)
    lift (ok (length encrypted))

  unfoldable pub download_and_decrypt_file : Eff W ℕ (DownloadError u io)
  download_and_decrypt_file = do
    lengths ← traverse download_and_write_chunk (range 0 location.chunks)
    context cannot_flush_writer io.flush
    lift (ok (sum_u64 lengths))
