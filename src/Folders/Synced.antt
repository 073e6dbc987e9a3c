-- ===== src/Folders/Synced.antt =====
-- What a sync folder holds: src/v1/sync_dir.rs.
use rust_filen.Base.{ℕ, List, Bool}
use rust_filen.Base.Text.{Bytes}
use rust_filen.Base.Effects.{Eff, context}
use rust_filen.Names.{Uuids}
use rust_filen.Api.{ResponsePayload}
use rust_filen.Folders.{FolderData, HasUuid, HasFileMetadata}

module _ (u : Uuids) where
  pub record GetDirRequestPayload : Type 0 where
    pub api_key : Bytes
    pub sync_folder_uuid : u.Uuid
    pub first_request : Bool

  pub record SyncedFileData : Type 0 where
    pub uuid : u.Uuid
    pub bucket : Bytes
    pub region : Bytes
    pub parent : u.Uuid
    pub metadata : Bytes
    pub version : ℕ

  pub record GetDirResponseData : Type 0 where
    pub folders : List (FolderData u)
    pub files : List SyncedFileData

module _ {u : Uuids} where
  instance abbrev pub synced_file_metadata : HasFileMetadata (SyncedFileData u)
  synced_file_metadata = record { file_metadata_ref = λ d. d.metadata }

  instance abbrev pub synced_file_uuid : HasUuid u (SyncedFileData u)
  synced_file_uuid = record { uuid_ref = λ d. d.uuid }

-- `sync_dir::Error`
pub data SyncDirError (QueryError : Type 0) : Type 0 where
  get_dir_query_failed : QueryError → SyncDirError QueryError

-- `get_dir_request`, with the request of `queries` to `GET_DIR_PATH`.
unfoldable pub get_dir_request :
    (u : Uuids) {W Q : Type 0}
    → (GetDirRequestPayload u → Eff W (ResponsePayload (GetDirResponseData u)) Q)
    → GetDirRequestPayload u
    → Eff W (ResponsePayload (GetDirResponseData u)) (SyncDirError Q)
get_dir_request u get_dir payload = context get_dir_query_failed (get_dir payload)
