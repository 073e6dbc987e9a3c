-- ===== src/Tests/Upload.antt =====
-- Uploads with a reader and a server in memory.
use rust_filen.Base.{
  ℕ, suc, replicate, ◌+◌, ◌≡◌, arith, if◌then◌else◌, refl, List, [], ◌∷◌, ◌++◌, none, some, Bool,
  true, false, ok, err, returns, All, length, take, drop, map, concat,
}
use rust_filen.Base.Text.{Bytes, codes}
use rust_filen.Base.Effects.{traverse}
use rust_filen.Backoff.{standard_retries, call, call_operation, get_exp_backoff_iterator, delays}
use rust_filen.Names.{never}
use rust_filen.Chunks.{
  FileChunkPosition, dummy_chunk_index, calculate_chunk_count, collect, next, new,
}
use rust_filen.Chunks.Spec.{chunk_count, layout}
use rust_filen.Crypto.FileChunk.{encrypt_file_chunk}
use rust_filen.Crypto.Aes.{
  encrypt_aes_openssl, encrypt_aes_gcm_bstr, encrypt_aes_gcm, derive_key_from_password_256,
  bytes_to_binary_string,
}
use rust_filen.Tests.Instances.{
  plain_ciphers, plain_ciphers-IsCiphers, two_uuids, eager, eager-IsRetry,
}
use rust_filen.Upload.{
  file_chunk_size, UploadFileChunkResponseData, UploadFileChunkResponsePayload,
  FileUploadProperties, FileUploadInfo, UploadIo, chunk_not_accepted, to_api_endpoint,
  to_query_params, encrypt_and_upload_chunk, read_chunk, upload_position, upload_chunks,
  send_dummy_chunk,
}
use rust_filen.Upload.Accepted.{IsUploadIo, IsSent, AreSent}
use rust_filen.Upload.Complete.{encrypt_and_upload_file-ok}
use rust_filen.Upload.EncryptAndUpload.{encrypt_and_upload_file, with_properties, with_positions}
use rust_filen.Upload.Finalized.{IsAccepted}
use rust_filen.Upload.Accepting.{Accepts}
use rust_filen.Upload.Total.{encrypt_and_upload_file-total}
use rust_filen.Base.Decimal.{decimal}
use rust_filen.Crypto.Metadata.{encrypt_metadata_str, encrypt_metadata}
use rust_filen.Files.{
  encrypt_file_metadata, name_hashed, hash_fn, name_encrypted, size_encrypted, mime_encrypted,
}
use rust_filen.Files.Upload.{from_file_properties, with_chunks}
use rust_filen.Tests.Files.{
  notes, texts, upload_draws, notes-WritesFile, upload_draws-AreDrawn, five-Fits,
}
use rust_filen.Crypto.Primitives.{openssl_salt_prefix}
use rust_filen.Base.Utf8.{is_utf8}
use rust_filen.Upload.Failures.{
  Unreadable, upload_chunks-Unreadable, upload_and_finalize_not_accepted,
}
use rust_filen.Upload.Whole.{
  finalize_chunks_if_all_uploaded, mark_done, finalize_action, reason, upload_and_finalize,
}

abbrev hello : Bytes
hello = codes "hello"

-- The reader's place, and the uploads that were answered.
abbrev World : Type 0
World = ℕ × List (Bytes × Bytes)

abbrev pub stored : UploadFileChunkResponseData
stored = record {
  bucket = codes "filen-1";
  region = codes "de-1";
  expire_set = false;
  expire_timestamp = 0;
  delete_timestamp = 0;
}

abbrev pub answer : Bool → UploadFileChunkResponsePayload
answer status = record { status = status; message = none; data_ = some stored }

-- A server that answers each upload with the same status, and a reader of "hello" that may fail.
abbrev pub server : Bool → Bool → UploadIo two_uuids World
server accepts readable = record {
  QueryError = ℕ;
  IoError = ℕ;
  query_of = λ pairs. concat (map (λ (p : Bytes × Bytes). p.0 ++ p.1) pairs);
  seek = λ s w. if readable then returns (ok tt, (s, w.1)) else returns (err 5, w);
  read_exact = λ n w. returns (ok (take n (drop w.0 hello)), (w.0 + n, w.1));
  draw_iv = λ w. (codes "abcdefghijkl", w);
  upload_to_filen =
      λ endpoint body w. returns (ok (answer accepts), (w.0, w.1 ++ (endpoint, body) ∷ []));
  upload_done = λ payload w. returns (ok (record { status = true; message = none }), w);
}

server-IsUploadIo : IsUploadIo (server true true) hello (λ w. w.1)
server-IsUploadIo = record {
  reads = λ s n w lt. ((s + n, w.1), refl, refl);
  upload_logs = λ endpoint body w w' r h. cc h;
  upload_fails = λ endpoint body w w' e h. absurd (cc h);
  done_keeps = λ payload w w' r h. cc h;
  draw_keeps = λ w. refl;
}

-- The text that metadata is encrypted to with the salt of the draws.
abbrev metadata : Bytes → Bytes
metadata text =
    plain_ciphers.base64_encode
      (openssl_salt_prefix ++ (codes "saltsalt" ++ (replicate 16 0 ++ text)))

abbrev pub properties : FileUploadProperties two_uuids
properties = record {
  uuid = false;
  name_metadata = metadata (codes "notes.txt");
  name_hashed = codes "notes.txt";
  size_metadata = metadata (codes "5");
  chunks = 1;
  mime_metadata = metadata (codes "text/plain");
  file_metadata = metadata (codes "{}");
  file_key = notes.key;
  rm = codes "r";
  upload_key = codes "u";
  expire = never;
  parent_uuid = true;
  version = 2;
}

abbrev pub info : FileUploadInfo two_uuids
info = record { properties = properties; chunk_responses = answer true ∷ [] }

abbrev endpoint : ℕ → Bytes
endpoint i = to_api_endpoint two_uuids plain_ciphers (server true true) properties i (codes "api")

abbrev log : List (Bytes × Bytes)
log = (endpoint 0, codes "abcdefghijkl" ++ b'k' ∷ hello) ∷ (endpoint 1, []) ∷ []

made :
    from_file_properties two_uuids texts plain_ciphers 2 notes 2 true (codes "key") upload_draws
    ≡ some (returns properties)
unfolding from_file_properties with_chunks name_encrypted size_encrypted mime_encrypted
    calculate_chunk_count encrypt_file_metadata encrypt_metadata_str encrypt_metadata
    encrypt_aes_openssl is_utf8 decimal name_hashed hash_fn
made = refl

uploaded :
    upload_and_finalize two_uuids plain_ciphers
      (server true true)
      (eager World)
      standard_retries
      (codes "api")
      5
      properties
      (layout file_chunk_size 5)
      (0, [])
    ≡ returns (ok info, (5, log))
unfolding upload_and_finalize upload_chunks traverse upload_position read_chunk
    encrypt_and_upload_chunk send_dummy_chunk finalize_chunks_if_all_uploaded finalize_action
    mark_done
uploaded =
    unfold call call_operation get_exp_backoff_iterator delays eager chunk_count dummy_chunk_index
      encrypt_file_chunk encrypt_aes_gcm_bstr encrypt_aes_gcm derive_key_from_password_256
      bytes_to_binary_string in
    refl

whole_run :
    encrypt_and_upload_file two_uuids texts plain_ciphers
      (server true true)
      (eager World)
      standard_retries
      (codes "api")
      2
      notes
      2
      true
      (codes "key")
      upload_draws
      (0, [])
    ≡ some (returns (ok info, (5, log)))
unfolding encrypt_and_upload_file with_properties with_positions chunk_count new to_api_endpoint
whole_run =
    let positions : collect 2 (record {
      current_index = 0;
      current_offset = 0;
      chunk_size = file_chunk_size;
      file_size = 5;
    })
        ≡ some (layout file_chunk_size 5) =
      unfold collect next in refl in
    rw (made, encrypt_and_upload_file, with_properties, with_positions, positions, uploaded) refl

encrypt_and_upload_file-ok_example :
    (sent : List (Bytes × Bytes)) × (dummy : Bytes × Bytes) × (from_file_properties two_uuids texts
        plain_ciphers 2 notes 2 true
        (codes "key")
        upload_draws
      ≡ some (returns info.properties))
    × AreSent two_uuids plain_ciphers
        (server true true)
        (codes "api")
        info.properties
        hello
        (layout file_chunk_size 5)
        sent
    × IsSent two_uuids plain_ciphers
        (server true true)
        (codes "api")
        info.properties
        (length (layout file_chunk_size 5))
        []
        dummy
    × (log ≡ [] ++ (sent ++ dummy ∷ []))
    × All IsAccepted info.chunk_responses
    × (length info.chunk_responses ≡ length (layout file_chunk_size 5))
encrypt_and_upload_file-ok_example =
    encrypt_and_upload_file-ok two_uuids texts plain_ciphers (server true true) (eager World) hello
      (λ w. w.1) server-IsUploadIo (eager-IsRetry World) standard_retries (codes "api") notes refl
      five-Fits 2 2 true (codes "key") upload_draws info (0, []) (5, log) whole_run

server-Accepts : Accepts (server true true)
server-Accepts = record {
  uploads = λ endpoint body w. (answer true, (w.0, w.1 ++ (endpoint, body) ∷ []), refl, refl);
  done = λ payload w. (record { status = true; message = none }, w, refl, refl);
}

encrypt_and_upload_file-total_example :
    (info : FileUploadInfo two_uuids) × (w' : World) × (encrypt_and_upload_file two_uuids texts
        plain_ciphers
        (server true true)
        (eager World)
        standard_retries
        (codes "api")
        (suc (chunk_count file_chunk_size 5))
        notes
        1
        true
        (codes "key")
        upload_draws
        (0, [])
      ≡ some (returns (ok info, w')))
encrypt_and_upload_file-total_example =
    encrypt_and_upload_file-total two_uuids texts plain_ciphers (server true true) (eager World)
      hello (λ w. w.1) plain_ciphers-IsCiphers server-IsUploadIo server-Accepts
      (eager-IsRetry World) standard_retries (codes "api") notes true (codes "key") upload_draws
      (0, []) refl (omega arith) refl notes-WritesFile upload_draws-AreDrawn five-Fits
      (unfold chunk_count in omega arith) (search (arith, tt)) (unfold is_utf8 in refl)
      (search (arith, tt)) (unfold is_utf8 in refl)

unreadable :
    Unreadable two_uuids plain_ciphers
      (server true false)
      (eager World)
      standard_retries
      (codes "api")
      properties
unfolding read_chunk
unreadable position w = (5, refl)

abbrev position : FileChunkPosition
position = record { index = 0; start_position = 0; chunk_size = 5 }

upload_chunks-Unreadable_example :
    upload_chunks two_uuids plain_ciphers
      (server true false)
      (codes "api")
      properties
      (eager World)
      standard_retries
      (position ∷ [])
      (0, [])
    ≡ returns (ok [], (0, []))
upload_chunks-Unreadable_example =
    upload_chunks-Unreadable two_uuids plain_ciphers (server true false) (eager World)
      standard_retries (codes "api") properties unreadable (position ∷ []) (0, [])

refused :
    upload_chunks two_uuids plain_ciphers
      (server false true)
      (codes "api")
      properties
      (eager World)
      standard_retries
      (position ∷ [])
      (0, [])
    ≡ returns
        (ok ([] ++ answer false ∷ []), (5, (endpoint 0, codes "abcdefghijkl" ++ b'k' ∷ hello) ∷ []))
unfolding upload_chunks traverse upload_position read_chunk encrypt_and_upload_chunk to_api_endpoint
    to_query_params
refused =
    unfold call call_operation get_exp_backoff_iterator delays eager encrypt_file_chunk
      encrypt_aes_gcm_bstr encrypt_aes_gcm derive_key_from_password_256 bytes_to_binary_string in
    refl

upload_and_finalize_not_accepted_example :
    upload_and_finalize two_uuids plain_ciphers
      (server false true)
      (eager World)
      standard_retries
      (codes "api")
      5
      properties
      (position ∷ [])
      (0, [])
    ≡ returns (
      err (chunk_not_accepted (reason none)),
      (5, (endpoint 0, codes "abcdefghijkl" ++ b'k' ∷ hello) ∷ []),
    )
upload_and_finalize_not_accepted_example =
    upload_and_finalize_not_accepted two_uuids plain_ciphers (server false true) (eager World)
      standard_retries (codes "api") 5 properties (position ∷ []) [] [] (answer false) (0, [])
      (5, (endpoint 0, codes "abcdefghijkl" ++ b'k' ∷ hello) ∷ []) refused tt refl
