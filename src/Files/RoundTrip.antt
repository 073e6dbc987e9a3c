-- ===== src/Files/RoundTrip.antt =====
-- File and folder metadata of src/v1/files.rs and src/v1/fs.rs is read back with the key it was made with.
use rust_filen.Base.{◌≡◌, refl, List, ◌∷◌, ◌++◌, false, ok, returns}
use rust_filen.Base.Text.{Bytes, codes, eq_ignore_ascii_case}
use rust_filen.Crypto.Primitives.{Ciphers, IsCiphers, openssl_salt_prefix_base64}
use rust_filen.Crypto.Metadata.{Draws}
use rust_filen.Crypto.Metadata.RoundTrip.{IsDrawn}
use rust_filen.Crypto.Metadata.Marked.{encrypt_metadata_str-marked}
use rust_filen.Files.{
  FileProperties, Texts, WritesFile, WritesName, encrypt_file_metadata, decrypt_file_metadata,
  encrypt_name_to_metadata, decrypt_name_from_metadata,
}

-- Encrypting a file's properties does not panic, and they are read back with the same key first among
-- the master keys, if the JSON of the properties is text and is read back.
pub decrypt_file_metadata-encrypt_file_metadata :
    (t : Texts) (c : Ciphers)
    → IsCiphers c
    → (p : FileProperties) (key : Bytes) (keys : List Bytes) (draws : Draws) → WritesFile t p
    → IsDrawn draws
    → (metadata : Bytes) × (encrypt_file_metadata t c p key draws ≡ returns metadata)
      × (decrypt_file_metadata t c metadata (key ∷ keys) ≡ ok p)
unfolding encrypt_file_metadata decrypt_file_metadata
decrypt_file_metadata-encrypt_file_metadata t c lawful p key keys draws json drawn =
    let text = json.text in
    let (rest, made, plain) =
      encrypt_metadata_str-marked c lawful key draws drawn (t.file_to_json p) text.ne_nil text.bytes
        text.utf8 in
    (
      openssl_salt_prefix_base64 ++ rest,
      rw (made) refl,
      rw (plain keys, json.reads_back, decrypt_file_metadata) refl,
    )

not_default :
    (rest : Bytes)
    → eq_ignore_ascii_case (openssl_salt_prefix_base64 ++ rest) (codes "default") ≡ false
unfolding eq_ignore_ascii_case
not_default rest = refl

-- Encrypting a folder's name does not panic, and it is read back with the same key first among the
-- keys; its metadata is never taken for the name of the default folder. Stated for a
-- name whose JSON is text and is read back.
pub decrypt_name_from_metadata-encrypt_name_to_metadata :
    (t : Texts) (c : Ciphers)
    → IsCiphers c
    → (name key : Bytes) (keys : List Bytes) (draws : Draws) → WritesName t name
    → IsDrawn draws
    → (metadata : Bytes) × (encrypt_name_to_metadata t c name key draws ≡ returns metadata)
      × (decrypt_name_from_metadata t c metadata (key ∷ keys) ≡ ok name)
unfolding encrypt_name_to_metadata decrypt_name_from_metadata
decrypt_name_from_metadata-encrypt_name_to_metadata t c lawful name key keys draws json drawn =
    let text = json.text in
    let (rest, made, plain) =
      encrypt_metadata_str-marked c lawful key draws drawn (t.name_to_json name) text.ne_nil
        text.bytes text.utf8 in
    (
      openssl_salt_prefix_base64 ++ rest,
      rw (made) refl,
      rw (not_default rest, plain keys, json.reads_back) refl,
    )
