-- ===== src/Folders.antt =====
-- What a folder holds: src/v1/download_dir.rs, with `FolderData` and the traits of src/v1/fs.rs that its
-- parts implement. A trait is a record of its methods without a body; its other methods are functions.
pub mod Listing
pub mod Received
pub mod Synced
pub mod Uploaded
use Prim.Native.String.{String}
use rust_filen.Base.{
  ℕ, ◌≡◌, refl, List, [], ◌∷◌, Option, none, some, Bool, true, false, Result, ok, err, map_err,
  map_ok, if◌then◌else◌,
}
use rust_filen.Base.Text.{Bytes}
use rust_filen.Base.Decimal.{ParseIntError, parse_unsigned, u64_max}
use rust_filen.Base.Fallible.{◌>>=◌}
use rust_filen.Base.Effects.{Eff, context}
use rust_filen.Names.{Uuids, ParentOrBase}
use rust_filen.Api.{ResponsePayload}
use rust_filen.Crypto.Primitives.{Ciphers, CryptoError}
use rust_filen.Crypto.Metadata.{decrypt_metadata_str, decrypt_metadata_str_any_key}
use rust_filen.Files.{
  FileProperties, Texts, FilesError, decrypt_file_metadata, decrypt_name_from_metadata,
}
use rust_filen.Download.{FileLocation}

pub record FileStorageInfo : Type 0 where
  pub bucket : Bytes
  pub region : Bytes
  pub chunks : ℕ

module _ (u : Uuids) where
  pub record FolderData : Type 0 where
    pub uuid : u.Uuid
    pub name_metadata : Bytes
    pub parent : ParentOrBase u

  pub record FileData : Type 0 where
    pub uuid : u.Uuid
    pub storage : FileStorageInfo
    pub name_metadata : Bytes
    pub size_metadata : Bytes
    pub mime_metadata : Bytes
    pub parent : u.Uuid
    pub metadata : Bytes
    pub version : ℕ

  pub record DownloadDirRequestPayload : Type 0 where
    pub api_key : Bytes
    pub uuid : u.Uuid

  pub record DownloadDirResponseData : Type 0 where
    pub folders : List FolderData
    pub files : List FileData

  pub record HasUuid (T : Type 0) : Type 0 where
    pub uuid_ref : T → u.Uuid

pub record HasFileMetadata (T : Type 0) : Type 0 where
  pub file_metadata_ref : T → Bytes

pub record HasLocationName (T : Type 0) : Type 0 where
  pub name_metadata_ref : T → Bytes

pub record HasFileLocation (T : Type 0) : Type 0 where
  pub file_storage_ref : T → FileStorageInfo

module _ {u : Uuids} where
  instance abbrev pub folder_data_uuid : HasUuid u (FolderData u)
  folder_data_uuid = record { uuid_ref = λ d. d.uuid }

  instance abbrev pub file_data_uuid : HasUuid u (FileData u)
  file_data_uuid = record { uuid_ref = λ d. d.uuid }

  instance abbrev pub folder_data_name : HasLocationName (FolderData u)
  folder_data_name = record { name_metadata_ref = λ d. d.name_metadata }

  instance abbrev pub file_data_metadata : HasFileMetadata (FileData u)
  file_data_metadata = record { file_metadata_ref = λ d. d.metadata }

  instance abbrev pub file_data_location : HasFileLocation (FileData u)
  file_data_location = record { file_storage_ref = λ d. d.storage }

-- `iter().map(…).collect::<Result<Vec<_>, _>>()`
unfoldable pub collect : {A B E : Type 0} → (A → Result B E) → List A → Result (List B) E
collect f [] = ok []
collect f (x ∷ xs) = f x >>= λ y. collect f xs >>= λ ys. ok (y ∷ ys)

module _ (u : Uuids) {T : Type 0} ⦃id : HasUuid u T⦄ where
  -- `HasFileLocation::get_file_location`
  unfoldable pub get_file_location : ⦃l : HasFileLocation T⦄ → T → FileLocation u
  get_file_location ⦃l⦄ item =
      let storage = l.file_storage_ref item in
      record {
        region = storage.region;
        bucket = storage.bucket;
        file_uuid = id.uuid_ref item;
        chunks = storage.chunks;
      }

  -- `HasFiles::file_with_uuid` and `HasFolders::folder_with_uuid`
  unfoldable pub find_uuid : u.Uuid → List T → Option T
  find_uuid uuid [] = none
  find_uuid uuid (item ∷ items) =
      if u.eq (id.uuid_ref item) uuid then some item else find_uuid uuid items

module _ (t : Texts) (c : Ciphers) {T : Type 0} where
  -- The methods of `HasFileMetadata` and `HasLocationName`.
  abbrev pub decrypt_file :
      ⦃m : HasFileMetadata T⦄ → T → List Bytes → Result FileProperties FilesError
  decrypt_file ⦃m⦄ item master_keys =
      decrypt_file_metadata t c (m.file_metadata_ref item) master_keys

  abbrev pub decrypt_name_metadata :
      ⦃n : HasLocationName T⦄ → T → List Bytes → Result Bytes FilesError
  decrypt_name_metadata ⦃n⦄ item master_keys =
      decrypt_name_from_metadata t c (n.name_metadata_ref item) master_keys

  -- `HasFiles::decrypt_all_file_properties` and `HasFolders::decrypt_all_folder_names`
  unfoldable pub decrypt_all_file_properties :
      ⦃m : HasFileMetadata T⦄ → List T → List Bytes → Result (List (T × FileProperties)) FilesError
  unfolding collect
  decrypt_all_file_properties items keys =
      collect (λ item. map_ok (λ p. (item, p)) (decrypt_file item keys)) items

  unfoldable pub decrypt_all_folder_names :
      ⦃n : HasLocationName T⦄ → List T → List Bytes → Result (List (T × Bytes)) FilesError
  unfolding collect
  decrypt_all_folder_names items keys =
      collect (λ item. map_ok (λ name. (item, name)) (decrypt_name_metadata item keys)) items

pub record FileNameSizeMime : Type 0 where
  pub name : Bytes
  pub size : ℕ
  pub mime : Bytes

-- What listing a folder uses of the world: the request of `queries` to `DOWNLOAD_DIR_PATH`.
pub record DirIo (u : Uuids) (W : Type 0) : Type 1 where
  pub QueryError : Type 0
  pub download_dir :
      DownloadDirRequestPayload u → Eff W (ResponsePayload (DownloadDirResponseData u)) QueryError

-- `download_dir::Error`
pub data DownloadDirError (QueryError : Type 0) : Type 0 where
  decrypt_file_name_metadata_failed : Bytes → CryptoError → DownloadDirError QueryError
  decrypt_file_size_metadata_failed : Bytes → CryptoError → DownloadDirError QueryError
  decrypted_size_is_invalid : Bytes → ParseIntError → DownloadDirError QueryError
  decrypt_file_mime_metadata_failed : Bytes → CryptoError → DownloadDirError QueryError
  download_dir_query_failed : QueryError → DownloadDirError QueryError

module _ (u : Uuids) (c : Ciphers) {E : Type 0} where
  -- `FileData::decrypt_name_size_mime`
  unfoldable pub decrypt_name_size_mime :
      FileData u → Bytes → Result FileNameSizeMime (DownloadDirError E)
  decrypt_name_size_mime d file_key = do
    name ←
        map_err (decrypt_file_name_metadata_failed d.name_metadata)
          (decrypt_metadata_str c d.name_metadata file_key)
    size_string ←
        map_err (decrypt_file_size_metadata_failed d.size_metadata)
          (decrypt_metadata_str c d.size_metadata file_key)
    size ← map_err (decrypted_size_is_invalid size_string) (parse_unsigned u64_max size_string)
    mime ←
        map_err (decrypt_file_mime_metadata_failed d.mime_metadata)
          (decrypt_metadata_str c d.mime_metadata file_key)
    ok (record { name = name; size = size; mime = mime })

module _ (u : Uuids) {W : Type 0} (io : DirIo u W) where
  unfoldable pub download_dir_request :
      DownloadDirRequestPayload u
      → Eff W (ResponsePayload (DownloadDirResponseData u)) (DownloadDirError io.QueryError)
  download_dir_request payload = context download_dir_query_failed (io.download_dir payload)
