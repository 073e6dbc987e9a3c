-- ===== src/Tests.antt =====
-- Runs of the model on concrete inputs.
pub mod Instances
pub mod Download
pub mod Dirs
pub mod Endpoint
pub mod Files
pub mod Folders
pub mod Share
pub mod Concurrent
pub mod Links
pub mod Locations
pub mod Keys
pub mod ConcurrentLinks
pub mod Upload
use rust_filen.Base.{
  ℕ, zero, suc, ◌+◌, ◌-◌, ◌*◌, ◌/◌, ◌^◌, ◌==◌, ◌≤◌, ◌<◌, min, ◌≡◌, ◌≢◌, ◌↔◌, refl, List, [], ◌∷◌,
  ◌++◌, Option, none, some, Bool, true, false, arith, ok, err, returns, panics, Outcome, Result,
  All, length, map, concat, get_elem?, is_empty, is_ok, if◌then◌else◌,
}
use rust_filen.Base.Text.{Bytes, codes, is_continuation}
use rust_filen.Base.Utf8.{is_utf8}
use rust_filen.Base.Effects.{Eff}
use rust_filen.Tests.Instances.{
  plain_ciphers, plain_ciphers-IsCiphers, two_uuids, two_uuids-IsUuids, eager, eager-IsRetry,
}
use rust_filen.Chunks.{
  FileChunkPosition, FileChunkPositions, new, collect, calculate_chunk_count, dummy_chunk_index,
}
use rust_filen.Chunks.Spec.{Fits, chunk_count, layout}
use rust_filen.Chunks.Collect.{collect-new}
use rust_filen.Chunks.Cover.{slice, concat-slices}
use rust_filen.Chunks.Count.{calculate_chunk_count-length, calculate_chunk_count-none}
use rust_filen.Backoff.{
  RetrySettings, standard_retries, from_millis, as_millis, delays, from_retry_settings, call,
}
use rust_filen.Backoff.Delays.{InRange, delays-get_elem?, delays-All, delays_factor_zero}
use rust_filen.Backoff.Call.{attempts, call-attempts}
use rust_filen.Names.{
  Expire, hours, parse_expire, print_expire, ParentOrBase, folder, ContentKind, content,
  parse_parent_or_base, print_parent_or_base, parse_parent_or_none, print_parent_or_none,
  parse_content_kind, print_content_kind, as_parent_or_none, as_parent_or_base,
}
use rust_filen.Names.Expires.{parse_expire-print_expire, parse_expire-panics_iff}
use rust_filen.Names.Parents.{parents-print}
use rust_filen.Crypto.Primitives.{IsBytes, bad_argument}
use rust_filen.Base.Decimal.{decimal, parse_signed}
use mathlib.Core.List.{flat_map}
use rust_filen.Crypto.Aes.{
  bytes_to_binary_string, encrypt_aes_gcm_base64, encrypt_aes_gcm, encrypt_aes_gcm_bstr,
  derive_key_from_password_256, decrypt_aes_gcm_base64, extract_aes_gcm_iv_and_message,
  decrypt_aes_gcm_from_iv_and_bytes, encrypt_aes_openssl, decrypt_aes_openssl,
}
use rust_filen.Crypto.Aes.RoundTrip.{decrypt_aes_openssl-encrypt_aes_openssl}
use rust_filen.Crypto.Metadata.{
  Draws, read_metadata_version, encrypt_metadata, decrypt_metadata, decrypt_metadata_any_key,
  encrypt_metadata_str, decrypt_metadata_str,
}
use rust_filen.Crypto.Metadata.AnyKey.{
  Fails, decrypt_metadata_any_key-first, decrypt_metadata_any_key-Fails,
}
use rust_filen.Crypto.Metadata.RoundTrip.{
  IsDrawn, decrypt_metadata-encrypt_metadata, encrypt_metadata_str-total,
}
use rust_filen.Crypto.FileChunk.{encrypt_file_chunk, decrypt_file_chunk}
use rust_filen.Crypto.FileChunk.RoundTrip.{
  characters, is_marked, decrypt_file_chunk-encrypt_file_chunk, decrypt_file_chunk_marked,
}

-- Five bytes in chunks of two.
five_bytes-Fits : Fits 2 5
unfolding chunk_count
five_bytes-Fits = record {
  positive = omega arith;
  chunk_size_lt = omega arith;
  file_size_lt = omega arith;
  count_lt = omega arith;
}

collect-new_example :
    (s : FileChunkPositions) × (new 2 5 ≡ returns s)
    × (collect (suc (chunk_count 2 5)) s ≡ some (layout 2 5))
collect-new_example = collect-new 2 5 five_bytes-Fits

concat-slices_example :
    (s : FileChunkPositions) × (positions : List FileChunkPosition) × (new 2
        (length (codes "abcde"))
      ≡ returns s)
    × (collect (suc (chunk_count 2 (length (codes "abcde")))) s ≡ some positions)
    × (concat (map (slice (codes "abcde")) positions) ≡ codes "abcde")
concat-slices_example = concat-slices 2 (codes "abcde") five_bytes-Fits

calculate_chunk_count-length_example :
    calculate_chunk_count (suc (chunk_count 2 5)) 2 5 ≡ some (length (layout 2 5))
calculate_chunk_count-length_example =
    calculate_chunk_count-length 2 5 five_bytes-Fits (unfold chunk_count in omega arith)

calculate_chunk_count-none_example : calculate_chunk_count 3 (2 ^ 20) (2 ^ 64 - 1) ≡ none
calculate_chunk_count-none_example = calculate_chunk_count-none (2 ^ 64 - 1) 3 (omega arith)

standard_retries-InRange : InRange standard_retries
standard_retries-InRange = record {
  initial_lt = omega arith;
  max_lt = omega arith;
  factor_lt = omega arith;
}

delays-get_elem?_example :
    let delay = get_elem? (delays 5 (from_retry_settings standard_retries)) in
    (delay 0 ≡ some (from_millis 1000)) × (delay 4 ≡ some (from_millis (min (1000 * 2 ^ 4) 15000)))
delays-get_elem?_example =
    delays-get_elem? standard_retries 5 3 standard_retries-InRange (omega arith) (omega arith)

delays-All_example :
    All (λ d. d ≤ standard_retries.max_delay) (delays 5 (from_retry_settings standard_retries))
delays-All_example = delays-All standard_retries 5 standard_retries-InRange (omega arith)

abbrev factor_zero : RetrySettings
factor_zero = record standard_retries { exp_factor = 0 }

factor_zero-InRange : InRange factor_zero
factor_zero-InRange = record {
  initial_lt = omega arith;
  max_lt = omega arith;
  factor_lt = omega arith;
}

delays_factor_zero_example : get_elem? (delays 5 (from_retry_settings factor_zero)) 1 ≡ some 0
delays_factor_zero_example =
    delays_factor_zero factor_zero 5 0 factor_zero-InRange refl (omega arith)

-- An operation that fails until its state has counted up to two.
abbrev third_time : Eff ℕ ℕ ℕ
third_time n = if n == 2 then returns (ok n, 3) else returns (err n, suc n)

call-attempts_example : call (eager ℕ) standard_retries third_time 0 ≡ attempts 5 third_time 0
call-attempts_example = call-attempts (eager ℕ) (eager-IsRetry ℕ) ℕ ℕ standard_retries third_time 0

parse_expire-print_expire_example : parse_expire (print_expire (hours 6)) ≡ returns (ok (hours 6))
parse_expire-print_expire_example = parse_expire-print_expire (hours 6) (omega arith)

-- What stands before the last byte of "1é".
abbrev before : Bytes
before = b'1' ∷ 0xc3 ∷ []

parse_expire-panics_iff_example :
    (parse_expire (before ++ 0xa9 ∷ []) ≡ panics) ↔ ((before ≢ []) × (is_continuation 0xa9 ≡ true))
parse_expire-panics_iff_example = parse_expire-panics_iff before 0xa9

parents-print_example :
    (parse_parent_or_base two_uuids (print_parent_or_base two_uuids (folder true))
      ≡ ok (folder true))
    × (parse_parent_or_none two_uuids
          (print_parent_or_none two_uuids (as_parent_or_none two_uuids (folder true)))
        ≡ ok (as_parent_or_none two_uuids (folder true)))
    × (as_parent_or_base two_uuids (as_parent_or_none two_uuids (folder true)) ≡ folder true)
parents-print_example = parents-print two_uuids two_uuids-IsUuids (folder true)

abbrev eight_bytes : Bytes
eight_bytes = codes "saltsalt"

abbrev draws : Draws
draws = record { salt = eight_bytes; iv = codes "abcdefghijkl" }

draws-IsDrawn : IsDrawn draws
draws-IsDrawn = record {
  length_salt = omega arith;
  salt-IsBytes = search (arith, tt);
  length_iv = omega arith;
  iv-IsAscii = search (arith, tt);
}

abbrev hello : Bytes
hello = codes "hello"

hello-IsBytes : IsBytes hello
hello-IsBytes = search (arith, tt)

decrypt_aes_openssl-encrypt_aes_openssl_example :
    (m : Bytes) × (encrypt_aes_openssl plain_ciphers hello (codes "key") none eight_bytes ≡ ok m)
    × (decrypt_aes_openssl plain_ciphers m (codes "key") ≡ ok hello)
decrypt_aes_openssl-encrypt_aes_openssl_example =
    decrypt_aes_openssl-encrypt_aes_openssl plain_ciphers plain_ciphers-IsCiphers hello
      (codes "key") none eight_bytes (omega arith)

-- "hello" as the model encrypts it in version 2.
abbrev sealed : Bytes
sealed = codes "002abcdefghijkl" ++ plain_ciphers.base64_encode (b'k' ∷ hello)

sealed_metadata : encrypt_metadata plain_ciphers hello (codes "key") 2 draws ≡ ok sealed
unfolding encrypt_metadata encrypt_aes_gcm_base64 encrypt_aes_gcm derive_key_from_password_256
    decimal
sealed_metadata = refl

decrypt_metadata-encrypt_metadata_example :
    decrypt_metadata plain_ciphers sealed (codes "key") ≡ ok hello
decrypt_metadata-encrypt_metadata_example =
    decrypt_metadata-encrypt_metadata plain_ciphers plain_ciphers-IsCiphers hello (codes "key") 2
      draws sealed draws-IsDrawn hello-IsBytes sealed_metadata

encrypt_metadata_str-total_example :
    (m : Bytes) × (encrypt_metadata_str plain_ciphers hello (codes "key") 1 draws ≡ ok m)
    × (decrypt_metadata_str plain_ciphers m (codes "key") ≡ ok hello)
encrypt_metadata_str-total_example =
    encrypt_metadata_str-total plain_ciphers plain_ciphers-IsCiphers hello (codes "key") draws
      draws-IsDrawn hello-IsBytes (unfold is_utf8 in refl)

right_key : decrypt_metadata plain_ciphers sealed (codes "key") ≡ ok hello
right_key =
    decrypt_metadata-encrypt_metadata plain_ciphers plain_ciphers-IsCiphers hello (codes "key") 2
      draws sealed draws-IsDrawn hello-IsBytes sealed_metadata

wrong_key : Fails plain_ciphers sealed (codes "wrong")
unfolding decrypt_metadata read_metadata_version decrypt_aes_gcm_base64
    extract_aes_gcm_iv_and_message
wrong_key =
    unfold parse_signed decrypt_aes_gcm_from_iv_and_bytes derive_key_from_password_256 in refl

decrypt_metadata_any_key-first_example :
    decrypt_metadata_any_key plain_ciphers sealed (codes "wrong" ∷ codes "key" ∷ []) ≡ ok hello
decrypt_metadata_any_key-first_example =
    decrypt_metadata_any_key-first plain_ciphers sealed (codes "wrong" ∷ []) [] (codes "key") hello
      (λ e. cc e) (wrong_key, tt) right_key

decrypt_metadata_any_key-Fails_example :
    decrypt_metadata_any_key plain_ciphers sealed (codes "wrong" ∷ [])
    ≡ err (bad_argument "all given keys failed to decrypt metadata")
decrypt_metadata_any_key-Fails_example =
    decrypt_metadata_any_key-Fails plain_ciphers sealed (codes "wrong" ∷ []) (λ e. cc e)
      (wrong_key, tt)

-- "hello" as a chunk in version 2, and the bytes that its text stands for.
abbrev sealed_chunk : Bytes
sealed_chunk = codes "abcdefghijkl" ++ b'k' ∷ hello

chunk_text : encrypt_file_chunk plain_ciphers hello (codes "key") 2 draws.iv ≡ ok sealed_chunk
unfolding encrypt_file_chunk encrypt_aes_gcm_bstr encrypt_aes_gcm derive_key_from_password_256
chunk_text = unfold bytes_to_binary_string flat_map in refl

decrypt_file_chunk-encrypt_file_chunk_example :
    decrypt_file_chunk plain_ciphers sealed_chunk (codes "key") 2 ≡ ok hello
decrypt_file_chunk-encrypt_file_chunk_example =
    decrypt_file_chunk-encrypt_file_chunk plain_ciphers plain_ciphers-IsCiphers (codes "key")
      draws.iv hello sealed_chunk sealed_chunk 2 (λ e. cc e) hello-IsBytes draws-IsDrawn.iv-IsAscii
      (omega arith) chunk_text (unfold characters in refl) refl

abbrev marked : Bytes
marked = codes "Salted__saltsaltmessage"

decrypt_file_chunk_marked_example :
    is_ok (decrypt_file_chunk plain_ciphers marked (codes "key") 1) ≡ false
decrypt_file_chunk_marked_example =
    decrypt_file_chunk_marked plain_ciphers plain_ciphers-IsCiphers (codes "key") [] marked
      (search (arith, tt)) (unfold is_marked in refl)
