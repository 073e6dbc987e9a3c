-- ===== src/Files.antt =====
-- The metadata of files and folders: `FileProperties` of src/v1/files.rs, `LocationNameMetadata` of
-- src/v1/fs.rs, `hash_fn` of src/crypto.rs, and `FileUploadProperties::from_file_properties` of
-- src/v1/upload_file.rs. The crates for JSON, MIME types, hashes and Unicode are parameters.
pub mod RoundTrip
pub mod Json
pub mod Shared
pub mod Upload
use Prim.Native.String.{String}
use rust_filen.Base.{
  ℕ, ◌<◌, ◌≡◌, ◌≢◌, List, [], ◌∷◌, Option, none, some, Bool, true, Result, ok, err, Outcome,
  returns, panics, ensure, map_ok, ltb, if◌then◌else◌,
}
use rust_filen.Base.Text.{Bytes, codes, eq_ignore_ascii_case}
use rust_filen.Base.Utf8.{is_utf8}
use rust_filen.Base.Decimal.{decimal}
use rust_filen.Base.Fallible.{◌>>=◌, ◌>>◌}
use rust_filen.Crypto.Primitives.{Ciphers, CryptoError, IsBytes}
use rust_filen.Crypto.Metadata.{Draws, encrypt_metadata_str, decrypt_metadata_str_any_key}

pub record FileProperties : Type 0 where
  pub name : Bytes
  pub size : ℕ
  pub mime : Bytes
  pub key : Bytes
  pub last_modified : ℕ

-- Other crates: JSON of the two structs and back, the MIME type of a name, SHA-1 and SHA-512 in
-- hexadecimal, and `str::to_lowercase`.
pub record Texts : Type 0 where
  pub file_to_json : FileProperties → Bytes
  pub file_from_json : Bytes → Option FileProperties
  pub name_to_json : Bytes → Bytes
  pub name_from_json : Bytes → Option Bytes
  pub mime_guess : Bytes → Option Bytes
  pub sha1_hex : Bytes → Bytes
  pub sha512_hex : Bytes → Bytes
  pub to_lowercase : Bytes → Bytes

-- A UTF-8 text of at least one byte.
pub record IsText (s : Bytes) : Type 0 where
  pub ne_nil : s ≢ []
  pub bytes : IsBytes s
  pub utf8 : is_utf8 s ≡ true

-- What `serde_json` documents, for one value: it writes UTF-8 text and reads back what it wrote.
pub record WritesFile (t : Texts) (p : FileProperties) : Type 0 where
  pub reads_back : t.file_from_json (t.file_to_json p) ≡ some p
  pub text : IsText (t.file_to_json p)

pub record WritesName (t : Texts) (name : Bytes) : Type 0 where
  pub reads_back : t.name_from_json (t.name_to_json name) ≡ some name
  pub text : IsText (t.name_to_json name)

-- The errors of src/v1/files.rs and src/v1/fs.rs that these functions return.
pub data FilesError : Type 0 where
  bad_argument : String → FilesError
  system_time_error : FilesError
  decrypt_file_metadata_failed : Bytes → CryptoError → FilesError
  deserialize_file_metadata_failed : Bytes → FilesError
  decrypt_location_name_failed : Bytes → CryptoError → FilesError
  deserialize_location_name_failed : FilesError
  cannot_decode_base64_metadata : Bytes → FilesError
  decrypt_file_metadata_rsa_failed : Bytes → CryptoError → FilesError
  encrypt_file_metadata_rsa_failed : Bytes → CryptoError → FilesError

-- `METADATA_VERSION` of src/v1/mod.rs
abbrev pub metadata_version : ℕ
metadata_version = 1

-- `Result::unwrap`
abbrev pub unwrap : {A : Type 0} → Result A CryptoError → Outcome A
unwrap (ok a) = returns a
unwrap (err e) = panics

-- What `serde_json::from_str` returns, with its context.
abbrev pub parsed : {A : Type 0} → FilesError → Option A → Result A FilesError
parsed e (some a) = ok a
parsed e none = err e

module _ (t : Texts) where
  -- `FileProperties::from_name_size_modified_key`; a time before the epoch is `none`, and `drawn` is a
  -- random key.
  unfoldable pub from_name_size_modified_key :
      Bytes → ℕ → Option ℕ → Option Bytes → Bytes → Result FileProperties FilesError
  from_name_size_modified_key name size modified_secs file_key drawn = do
    ensure (ltb 0 size) (bad_argument "file size should be > 0")
    last_modified_secs ← parsed system_time_error modified_secs
    ok (record {
      name = name;
      size = size;
      mime = elim (t.mime_guess name) [ some mime ↦ mime | none ↦ [] ];
      key = elim file_key [ some key ↦ key | none ↦ drawn ];
      last_modified = last_modified_secs;
    })

  -- `crypto::hash_fn` and `LocationNameMetadata::name_hashed`
  unfoldable pub hash_fn : Bytes → Bytes
  hash_fn value = t.sha1_hex (t.sha512_hex value)

  unfoldable pub name_hashed : Bytes → Bytes
  name_hashed name = hash_fn (t.to_lowercase name)

  -- `LocationNameMetadata::extract_name_from_folder_properties_json`
  abbrev pub extract_name_from_folder_properties_json : Bytes → Result Bytes FilesError
  extract_name_from_folder_properties_json json =
      parsed deserialize_location_name_failed (t.name_from_json json)

module _ (t : Texts) (c : Ciphers) where
  unfoldable pub encrypt_file_metadata : FileProperties → Bytes → Draws → Outcome Bytes
  encrypt_file_metadata file_properties last_master_key draws = unwrap (
      encrypt_metadata_str c (t.file_to_json file_properties) last_master_key metadata_version
        draws)

  unfoldable pub decrypt_file_metadata : Bytes → List Bytes → Result FileProperties FilesError
  decrypt_file_metadata metadata master_keys =
      elim (decrypt_metadata_str_any_key c metadata master_keys) [
        | ok json ↦ parsed (deserialize_file_metadata_failed metadata) (t.file_from_json json)
        | err e ↦ err (decrypt_file_metadata_failed metadata e)
      ]

  unfoldable pub encrypt_name_to_metadata : Bytes → Bytes → Draws → Outcome Bytes
  encrypt_name_to_metadata name key draws =
      unwrap (encrypt_metadata_str c (t.name_to_json name) key metadata_version draws)

  unfoldable pub decrypt_name_from_metadata : Bytes → List Bytes → Result Bytes FilesError
  decrypt_name_from_metadata name_metadata keys =
      if eq_ignore_ascii_case name_metadata (codes "default")
      then ok (codes "Default")
      else elim (decrypt_metadata_str_any_key c name_metadata keys) [
        | ok json ↦ extract_name_from_folder_properties_json t json
        | err e ↦ err (decrypt_location_name_failed name_metadata e)
      ]

  -- `name_encrypted`, `size_encrypted`, `mime_encrypted`
  unfoldable pub name_encrypted : FileProperties → Draws → Outcome Bytes
  name_encrypted p draws = unwrap (encrypt_metadata_str c p.name p.key metadata_version draws)

  unfoldable pub size_encrypted : FileProperties → Draws → Outcome Bytes
  size_encrypted p draws =
      unwrap (encrypt_metadata_str c (decimal p.size) p.key metadata_version draws)

  unfoldable pub mime_encrypted : FileProperties → Draws → Outcome Bytes
  mime_encrypted p draws = unwrap (encrypt_metadata_str c p.mime p.key metadata_version draws)
