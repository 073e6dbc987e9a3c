-- ===== src/Download/Promises.antt =====
-- What the download of src/v1/download_file.rs asks of the writer and of the servers, and what it
-- delivers of the chunks they hold.
use rust_filen.Base.{ℕ, ◌≡◌, List, [], ◌∷◌, ◌++◌, Result, ok, returns, length, ◌<◌}
use rust_filen.Base.Text.{Bytes}
use rust_filen.Backoff.{RetrySettings}
use rust_filen.Backoff.Call.{attempts}
use rust_filen.Names.{Uuids}
use rust_filen.Crypto.Primitives.{Ciphers}
use rust_filen.Crypto.FileChunk.{decrypt_file_chunk}
use rust_filen.Download.{
  Io, FileLocation, get_file_chunk_location, filen_file_location_to_api_endpoint,
  download_file_chunk,
}

-- What the writer and the servers promise: `Write` documents that a write that succeeds has written the
-- whole buffer behind what is there, and flushing and downloading write nothing; the servers hold
-- `store` under each endpoint.
pub record IsIo {W : Type 0} (io : Io W) (written : W → Bytes) (store : Bytes → Bytes)
    : Type 1 where
  pub write_all-ok :
      (bytes : Bytes) (w w' : W)
      → io.write_all bytes w ≡ returns (ok tt, w')
      → written w' ≡ written w ++ bytes
  pub flush-ok : (w w' : W) → io.flush w ≡ returns (ok tt, w') → written w' ≡ written w
  pub download_keeps :
      (endpoint : Bytes) (w w' : W) (r : Result Bytes io.QueryError)
      → io.download_from_filen endpoint w ≡ returns (r, w')
      → written w' ≡ written w
  pub download_stored :
      (endpoint : Bytes) (w w' : W) (bytes : Bytes)
      → io.download_from_filen endpoint w ≡ returns (ok bytes, w')
      → bytes ≡ store endpoint

-- The encrypted chunks of a file as the servers hold them.
abbrev pub stored_chunk : (u : Uuids) → (Bytes → Bytes) → FileLocation u → ℕ → Bytes
stored_chunk u store location i =
    store (filen_file_location_to_api_endpoint u (get_file_chunk_location u location i))

-- Each plain chunk is what the encrypted chunk at its place decrypts to.
abbrev pub Decrypts : Ciphers → Bytes → ℕ → List Bytes → List Bytes → Type 0
Decrypts c key version [] plain = plain ≡ []
Decrypts c key version (e ∷ encrypted) [] = e ∷ encrypted ≡ []
Decrypts c key version (e ∷ encrypted) (p ∷ plain) =
    (decrypt_file_chunk c e key version ≡ ok p) × Decrypts c key version encrypted plain

module _ (u : Uuids) (c : Ciphers) {W : Type 0} (io : Io W) (store : Bytes → Bytes)
    (settings : RetrySettings) (location : FileLocation u) (version : ℕ) (key : Bytes) where
  -- The servers answer within the attempts allowed, the writer takes everything, and every chunk of the
  -- file decrypts with the key.
  pub record Delivers : Type 1 where
    pub length_key : length key ≡ 32
    pub answers :
        (i : ℕ) (w : W)
        → i < location.chunks
        → (w' : W) × (attempts settings.max_tries
              (download_file_chunk u io (get_file_chunk_location u location i))
              w
            ≡ returns (ok (stored_chunk u store location i), w'))
    pub decrypts :
        (i : ℕ)
        → i < location.chunks
        → (plain : Bytes) × (decrypt_file_chunk c (stored_chunk u store location i) key version
            ≡ ok plain)
    pub writes : (bytes : Bytes) (w : W) → (w' : W) × (io.write_all bytes w ≡ returns (ok tt, w'))
    pub flushes : (w : W) → (w' : W) × (io.flush w ≡ returns (ok tt, w'))
