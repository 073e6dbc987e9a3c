-- ===== src/Folders/Received.antt =====
-- What a linked folder and a shared folder hold (src/v1/download_dir.rs), with the traits of src/v1/fs.rs that
-- their items implement.
use rust_filen.Base.{ℕ, List, [], ◌∷◌, Result}
use rust_filen.Base.Text.{Bytes}
use rust_filen.Names.{Uuids, ParentOrBase}
use rust_filen.Crypto.Primitives.{Ciphers}
use rust_filen.Crypto.Rsa.{Rsa}
use rust_filen.Files.{
  FileProperties, Texts, FilesError, decrypt_file_metadata, decrypt_name_from_metadata,
}
use rust_filen.Files.Shared.{decrypt_file_metadata_rsa, decrypt_name_from_metadata_rsa}
use rust_filen.Folders.{FileStorageInfo, HasUuid, HasFileLocation}

module _ (u : Uuids) where
  pub record LinkedFolderData : Type 0 where
    pub uuid : u.Uuid
    pub name_metadata : Bytes
    pub parent : ParentOrBase u

  pub record LinkedFileData : Type 0 where
    pub uuid : u.Uuid
    pub storage : FileStorageInfo
    pub parent : u.Uuid
    pub metadata : Bytes
    pub version : ℕ

  pub record DownloadDirLinkResponseData : Type 0 where
    pub folders : List LinkedFolderData
    pub files : List LinkedFileData

  pub record SharedFolderData : Type 0 where
    pub uuid : u.Uuid
    pub name_metadata : Bytes
    pub parent : ParentOrBase u

  pub record SharedFileData : Type 0 where
    pub uuid : u.Uuid
    pub storage : FileStorageInfo
    pub parent : u.Uuid
    pub metadata : Bytes
    pub version : ℕ

  pub record DownloadDirSharedResponseData : Type 0 where
    pub folders : List SharedFolderData
    pub files : List SharedFileData

pub record HasLinkedFileMetadata (T : Type 0) : Type 0 where
  pub file_metadata_ref : T → Bytes

pub record HasLinkedLocationName (T : Type 0) : Type 0 where
  pub name_metadata_ref : T → Bytes

pub record HasSharedFileMetadata (T : Type 0) : Type 0 where
  pub file_metadata_ref : T → Bytes

pub record HasSharedLocationName (T : Type 0) : Type 0 where
  pub name_metadata_ref : T → Bytes

module _ {u : Uuids} where
  instance abbrev pub linked_folder_name : HasLinkedLocationName (LinkedFolderData u)
  linked_folder_name = record { name_metadata_ref = λ d. d.name_metadata }

  instance abbrev pub linked_file_metadata : HasLinkedFileMetadata (LinkedFileData u)
  linked_file_metadata = record { file_metadata_ref = λ d. d.metadata }

  instance abbrev pub linked_file_location : HasFileLocation (LinkedFileData u)
  linked_file_location = record { file_storage_ref = λ d. d.storage }

  instance abbrev pub linked_file_uuid : HasUuid u (LinkedFileData u)
  linked_file_uuid = record { uuid_ref = λ d. d.uuid }

  instance abbrev pub shared_folder_name : HasSharedLocationName (SharedFolderData u)
  shared_folder_name = record { name_metadata_ref = λ d. d.name_metadata }

  instance abbrev pub shared_file_metadata : HasSharedFileMetadata (SharedFileData u)
  shared_file_metadata = record { file_metadata_ref = λ d. d.metadata }

  instance abbrev pub shared_file_location : HasFileLocation (SharedFileData u)
  shared_file_location = record { file_storage_ref = λ d. d.storage }

  instance abbrev pub shared_file_uuid : HasUuid u (SharedFileData u)
  shared_file_uuid = record { uuid_ref = λ d. d.uuid }

module _ (t : Texts) (c : Ciphers) {T : Type 0} where
  -- The methods of the four traits.
  abbrev pub decrypt_linked_file :
      ⦃m : HasLinkedFileMetadata T⦄ → T → Bytes → Result FileProperties FilesError
  decrypt_linked_file ⦃m⦄ item link_key =
      decrypt_file_metadata t c (m.file_metadata_ref item) (link_key ∷ [])

  abbrev pub decrypt_linked_name :
      ⦃n : HasLinkedLocationName T⦄ → T → Bytes → Result Bytes FilesError
  decrypt_linked_name ⦃n⦄ item link_key =
      decrypt_name_from_metadata t c (n.name_metadata_ref item) (link_key ∷ [])

  abbrev pub decrypt_shared_file :
      Rsa → ⦃m : HasSharedFileMetadata T⦄ → T → Bytes → Result FileProperties FilesError
  decrypt_shared_file rsa ⦃m⦄ item rsa_private_key =
      decrypt_file_metadata_rsa t c rsa (m.file_metadata_ref item) rsa_private_key

  abbrev pub decrypt_shared_name :
      Rsa → ⦃n : HasSharedLocationName T⦄ → T → Bytes → Result Bytes FilesError
  decrypt_shared_name rsa ⦃n⦄ item rsa_private_key =
      decrypt_name_from_metadata_rsa t c rsa (n.name_metadata_ref item) rsa_private_key
