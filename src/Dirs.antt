-- ===== src/Dirs.antt =====
-- The folders of an account: src/v1/dirs.rs, with `LocationColor` and `LocationKind` of src/v1/fs.rs. Here the
-- data of the responses; below, the payloads.
pub mod Payloads
pub mod Created
use rust_filen.Base.{
  ℕ, List, [], ◌∷◌, Option, some, none, Bool, Outcome, returns, panics, if◌then◌else◌,
}
use rust_filen.Base.Text.{Bytes}
use rust_filen.Names.{Uuids, ContentKind}
use rust_filen.Api.{ResponsePayload}
use rust_filen.Folders.{FileStorageInfo, HasUuid, HasFileMetadata, HasLocationName}

pub data LocationColor : Type 0 where
  default blue gray green purple red : LocationColor

pub data LocationKind : Type 0 where
  folder sync : LocationKind

module _ (u : Uuids) where
  pub record UserBaseFolder : Type 0 where
    pub uuid : u.Uuid
    pub name_metadata : Bytes
    pub color : Option LocationColor
    pub timestamp : ℕ
    pub favorited : Bool
    pub is_default : Bool
    pub is_sync : Bool

  -- The field `default` of the source is `default_` here.
  pub record UserDirData : Type 0 where
    pub uuid : u.Uuid
    pub name_metadata : Bytes
    pub parent : Option u.Uuid
    pub default_ : Bool
    pub sync_ : Bool
    pub is_default : ℕ
    pub is_sync : ℕ
    pub color : Option LocationColor

  pub record DirContentFile : Type 0 where
    pub uuid : u.Uuid
    pub metadata : Bytes
    pub rm : Bytes
    pub storage : FileStorageInfo
    pub expire_set : Bool
    pub expire_timestamp : ℕ
    pub delete_timestamp : ℕ
    pub timestamp : ℕ
    pub trash_timestamp : Option ℕ
    pub parent : u.Uuid
    pub version : ℕ
    pub favorited : Bool

  pub record DirContentFolder : Type 0 where
    pub uuid : u.Uuid
    pub name_metadata : Bytes
    pub parent : Option u.Uuid
    pub color : Option LocationColor
    pub timestamp : ℕ
    pub favorited : Bool
    pub is_default : Option Bool
    pub is_sync : Option Bool
    pub trash_parent : Option Bool
    pub trash_timestamp : Option ℕ

  pub record DirContentFolderInfo : Type 0 where
    pub uuid : ContentKind u
    pub name_metadata : Bytes
    pub color : Option LocationColor

  pub record DirContentResponseData : Type 0 where
    pub uploads : List DirContentFile
    pub folders : List DirContentFolder
    pub folders_info : List DirContentFolderInfo
    pub total_uploads : ℕ
    pub start_at : ℕ
    pub per_page : ℕ
    pub page : ℕ

  -- `iter().find(|dir_data| dir_data.default)`
  abbrev pub first_default : List UserDirData → Option UserDirData
  first_default [] = none
  first_default (d ∷ rest) = if d.default_ then some d else first_default rest

  -- `UserDirsResponsePayload::find_default_folder`
  unfoldable pub find_default_folder : ResponsePayload (List UserDirData) → Option UserDirData
  find_default_folder response = elim response.data_ [
    | some dirs ↦ first_default dirs
    | none ↦ none
  ]

module _ {u : Uuids} where
  instance abbrev pub base_folder_name : HasLocationName (UserBaseFolder u)
  base_folder_name = record { name_metadata_ref = λ d. d.name_metadata }

  instance abbrev pub base_folder_uuid : HasUuid u (UserBaseFolder u)
  base_folder_uuid = record { uuid_ref = λ d. d.uuid }

  instance abbrev pub user_dir_name : HasLocationName (UserDirData u)
  user_dir_name = record { name_metadata_ref = λ d. d.name_metadata }

  instance abbrev pub user_dir_uuid : HasUuid u (UserDirData u)
  user_dir_uuid = record { uuid_ref = λ d. d.uuid }

  instance abbrev pub content_file_metadata : HasFileMetadata (DirContentFile u)
  content_file_metadata = record { file_metadata_ref = λ d. d.metadata }

  instance abbrev pub content_file_uuid : HasUuid u (DirContentFile u)
  content_file_uuid = record { uuid_ref = λ d. d.uuid }

  instance abbrev pub content_folder_name : HasLocationName (DirContentFolder u)
  content_folder_name = record { name_metadata_ref = λ d. d.name_metadata }

  instance abbrev pub content_folder_uuid : HasUuid u (DirContentFolder u)
  content_folder_uuid = record { uuid_ref = λ d. d.uuid }
