-- ===== src/Tests/Download.antt =====
-- Downloads with servers and a writer in memory.
use rust_filen.Base.{
  ℕ, ◌*◌, ◌%◌, ◌^◌, ◌<◌, ◌≡◌, refl, List, [], ◌∷◌, ◌++◌, false, ok, err, returns, arith, length,
  map, concat, range, sum_u64,
}
use rust_filen.Base.Text.{Bytes, codes}
use rust_filen.Base.Effects.{traverse}
use rust_filen.Backoff.{standard_retries, call, call_operation, get_exp_backoff_iterator, delays}
use rust_filen.Backoff.Call.{attempts}
use rust_filen.Chunks.Machine.{add_u32}
use rust_filen.Crypto.Primitives.{bad_argument}
use rust_filen.Crypto.FileChunk.{decrypt_file_chunk}
use rust_filen.Crypto.Aes.{
  decrypt_aes_gcm, extract_aes_gcm_iv_and_message, decrypt_aes_gcm_from_iv_and_bytes,
  derive_key_from_password_256,
}
use rust_filen.Tests.Instances.{plain_ciphers, two_uuids, eager, eager-IsRetry}
use rust_filen.Download.{
  Io, FileLocation, get_file_chunk_location, cannot_decrypt_file_chunk, download_file_chunk,
  open_chunk, download_and_write_chunk, download_and_decrypt_file,
}
use rust_filen.Download.Promises.{IsIo, Decrypts, stored_chunk, Delivers}
use rust_filen.Download.Sequential.{download_and_decrypt_file-ok, download_and_decrypt_file-total}
use rust_filen.Download.Batch.{
  batch_chunks, download_and_decrypt_batch, download_batch, write_indexed, decrypt_batch,
  write_batch, download_and_decrypt_file_async,
}
use rust_filen.Download.Batch.Order.{write_batch-ok, download_and_decrypt_file_async-ok}
use rust_filen.Download.Batch.Errors.{decrypt_batch-err}

abbrev hello : Bytes
hello = codes "hello"

abbrev key : Bytes
key = codes "kkkkkkkkkkkkkkkkkkkkkkkkkkkkkkkk"

-- Servers that hold the same chunk everywhere, and a writer that keeps what it is given.
abbrev sealed : Bytes
sealed = codes "abcdefghijkl" ++ b'k' ∷ hello

abbrev io : Io Bytes
io = record {
  QueryError = ℕ;
  IoError = ℕ;
  download_from_filen = λ endpoint w. returns (ok sealed, w);
  write_all = λ bytes w. returns (ok tt, w ++ bytes);
  flush = λ w. returns (ok tt, w);
}

io-IsIo : IsIo io (λ w. w) (λ endpoint. sealed)
io-IsIo = record {
  write_all-ok = λ bytes w w' h. cc h;
  flush-ok = λ w w' h. cc h;
  download_keeps = λ endpoint w w' r h. cc h;
  download_stored = λ endpoint w w' bytes h. cc h;
}

abbrev location : FileLocation two_uuids
location = record { region = codes "de-1"; bucket = codes "filen-1"; file_uuid = false; chunks = 2 }

sealed-hello : decrypt_file_chunk plain_ciphers sealed key 2 ≡ ok hello
unfolding decrypt_file_chunk decrypt_aes_gcm extract_aes_gcm_iv_and_message
sealed-hello = unfold decrypt_aes_gcm_from_iv_and_bytes derive_key_from_password_256 in refl

answered :
    (i : ℕ) (w : Bytes)
    → i < location.chunks
    → (w' : Bytes) × (attempts standard_retries.max_tries
          (download_file_chunk two_uuids io (get_file_chunk_location two_uuids location i))
          w
        ≡ returns (ok (stored_chunk two_uuids (λ endpoint. sealed) location i), w'))
unfolding attempts download_file_chunk
answered i w lt = (w, refl)

delivers : Delivers two_uuids plain_ciphers io (λ endpoint. sealed) standard_retries location 2 key
delivers = record {
  length_key = omega arith;
  answers = answered;
  decrypts = λ i lt. (hello, sealed-hello);
  writes = λ bytes w. (w ++ bytes, refl);
  flushes = λ w. (w, refl);
}

download_and_decrypt_file-total_example :
    (w' : Bytes) × (plain : List Bytes) × (download_and_decrypt_file two_uuids plain_ciphers io
        (eager Bytes)
        standard_retries
        location
        2
        key
        []
      ≡ returns (
        ok (
            sum_u64 (
              map
                (λ i. length (stored_chunk two_uuids (λ endpoint. sealed) location i))
                (range 0 2))),
        w',
      ))
    × Decrypts plain_ciphers key 2
        (map (stored_chunk two_uuids (λ endpoint. sealed) location) (range 0 2))
        plain
    × (w' ≡ [] ++ concat plain)
download_and_decrypt_file-total_example =
    download_and_decrypt_file-total two_uuids plain_ciphers io (eager Bytes) (λ w. w)
      (λ endpoint. sealed) io-IsIo (eager-IsRetry Bytes) standard_retries location 2 key delivers []

-- Two chunks of "hello", each encrypted to 18 bytes.
two_chunks :
    download_and_decrypt_file two_uuids plain_ciphers io
      (eager Bytes)
      standard_retries
      location
      2
      key
      []
    ≡ returns (ok 36, codes "hellohello")
unfolding download_and_decrypt_file download_and_write_chunk traverse call call_operation
    get_exp_backoff_iterator delays eager download_file_chunk open_chunk
two_chunks =
    unfold decrypt_file_chunk decrypt_aes_gcm extract_aes_gcm_iv_and_message
      decrypt_aes_gcm_from_iv_and_bytes derive_key_from_password_256 in
    refl

download_and_decrypt_file-ok_example :
    (plain : List Bytes) × Decrypts plain_ciphers key 2
      (map (stored_chunk two_uuids (λ endpoint. sealed) location) (range 0 2))
      plain
    × (codes "hellohello" ≡ [] ++ concat plain)
    × (36
        ≡ sum_u64 (
            map (λ i. length (stored_chunk two_uuids (λ endpoint. sealed) location i)) (range 0 2)))
download_and_decrypt_file-ok_example =
    download_and_decrypt_file-ok two_uuids plain_ciphers io (eager Bytes) (λ w. w)
      (λ endpoint. sealed) io-IsIo (eager-IsRetry Bytes) standard_retries location 2 key 36 []
      (codes "hellohello") two_chunks

two_chunks_async :
    download_and_decrypt_file_async two_uuids plain_ciphers io
      (eager Bytes)
      standard_retries
      location
      2
      key
      []
    ≡ returns (ok 72, codes "hellohello")
unfolding download_and_decrypt_file_async batch_chunks download_and_decrypt_batch download_batch
    decrypt_batch write_indexed write_batch
two_chunks_async =
    unfold traverse call call_operation get_exp_backoff_iterator delays eager download_file_chunk
      open_chunk decrypt_file_chunk decrypt_aes_gcm extract_aes_gcm_iv_and_message
      decrypt_aes_gcm_from_iv_and_bytes derive_key_from_password_256 in
    refl

download_and_decrypt_file_async-ok_example :
    (plain : List Bytes) × Decrypts plain_ciphers key 2
      (map (stored_chunk two_uuids (λ endpoint. sealed) location) (range 0 2))
      plain
    × (codes "hellohello" ≡ [] ++ concat plain)
download_and_decrypt_file_async-ok_example =
    download_and_decrypt_file_async-ok two_uuids plain_ciphers io (eager Bytes) (λ w. w)
      (λ endpoint. sealed) io-IsIo (eager-IsRetry Bytes) standard_retries location 2 key 72 []
      (codes "hellohello") two_chunks_async

wrote_two :
    write_batch two_uuids plain_ciphers io
      (hello ∷ hello ∷ [])
      36
      (get_file_chunk_location two_uuids location 0)
      []
    ≡ returns (ok 72, codes "hellohello")
unfolding write_batch traverse
wrote_two = refl

write_batch-ok_example :
    (72 ≡ (length (hello ∷ hello ∷ []) * 36) % 2 ^ 64)
    × (codes "hellohello" ≡ [] ++ concat (hello ∷ hello ∷ []))
write_batch-ok_example =
    write_batch-ok two_uuids plain_ciphers io (λ w. w) (λ endpoint. sealed) io-IsIo
      (hello ∷ hello ∷ []) 36 72 (get_file_chunk_location two_uuids location 0) []
      (codes "hellohello") wrote_two

too_small :
    decrypt_file_chunk plain_ciphers [] key 2
    ≡ err (bad_argument "encrypted data is too small to contain AES GCM IV")
unfolding decrypt_file_chunk decrypt_aes_gcm extract_aes_gcm_iv_and_message
too_small = refl

decrypt_batch-err_example :
    decrypt_batch two_uuids plain_ciphers io 1 (sealed ∷ [] ∷ []) location 2 key
    ≡ err (
        cannot_decrypt_file_chunk 0
          (get_file_chunk_location two_uuids location (add_u32 1 1))
          (bad_argument "encrypted data is too small to contain AES GCM IV"))
decrypt_batch-err_example =
    decrypt_batch-err two_uuids plain_ciphers io location 2 1 key [] (sealed ∷ []) (hello ∷ []) []
      (bad_argument "encrypted data is too small to contain AES GCM IV") (omega arith)
      (sealed-hello, refl) too_small
