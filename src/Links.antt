-- ===== src/Links.antt =====
-- Public links: src/v1/links.rs, src/v1/dir_links.rs and src/v1/file_links.rs. Here their types, and how
-- the payload that adds an item to a folder's link is made; the requests stand below.
pub mod Requests
pub mod Added
pub mod Accepted
pub mod Recursive
pub mod Concurrent
pub mod Edit
use Prim.Native.String.{String}
use rust_filen.Base.{ℕ, List, Option, Result, ok, err, Outcome, returns, panics}
use rust_filen.Base.Text.{Bytes, codes}
use rust_filen.Base.Effects.{Eff}
use rust_filen.Names.{Uuids, Expire, never, ParentOrBase}
use rust_filen.Api.{ApiError, PlainResponsePayload}
use rust_filen.Crypto.Primitives.{Ciphers, CryptoError}
use rust_filen.Crypto.Metadata.{Draws, decrypt_metadata_str_any_key}
use rust_filen.Files.{
  FileProperties, Texts, FilesError, hash_fn, encrypt_file_metadata, encrypt_name_to_metadata,
}
use rust_filen.Folders.{
  HasUuid, HasFileMetadata, HasLocationName, decrypt_file, decrypt_name_metadata, DirIo,
  DownloadDirError,
}

pub data DownloadBtnState : Type 0 where
  disable : DownloadBtnState
  enable : DownloadBtnState

-- `PasswordState` of src/v1/mod.rs
pub data PasswordState : Type 0 where
  empty : PasswordState
  not_empty : PasswordState

-- `ItemKind` of src/v1/fs.rs
pub data ItemKind : Type 0 where
  file : ItemKind
  folder : ItemKind

pub data LinkState : Type 0 where
  disable : LinkState
  enable : LinkState

-- `LINK_EMPTY_PASSWORD_VALUE` and `LINK_EMPTY_PASSWORD_HASH`
abbrev pub link_empty_password_value : Bytes
link_empty_password_value = codes "empty"

abbrev pub link_empty_password_hash : Texts → Bytes
link_empty_password_hash t = hash_fn t link_empty_password_value

module _ (u : Uuids) where
  pub record DirLinkAddRequestPayload : Type 0 where
    pub api_key : Bytes
    pub download_btn : DownloadBtnState
    pub expiration : Expire
    pub key_metadata : Bytes
    pub link_uuid : u.Uuid
    pub metadata : Bytes
    pub parent : ParentOrBase u
    pub password : PasswordState
    pub password_hashed : Bytes
    pub link_type : ItemKind
    pub uuid : u.Uuid

  pub record LinkEditRequestPayload : Type 0 where
    pub api_key : Bytes
    pub download_btn : DownloadBtnState
    pub expiration : Expire
    pub file_uuid : u.Uuid
    pub password : PasswordState
    pub password_hashed : Bytes
    pub salt : Bytes
    pub link_type : LinkState
    pub uuid : u.Uuid

  pub record LinkIdWithKey : Type 0 where
    pub link_key_metadata : Bytes
    pub link_uuid : u.Uuid

  -- What links use of the world besides the content of folders: the random values that are drawn, and the
  -- requests of `queries` to `DIR_LINK_ADD_PATH` and `LINK_EDIT_PATH`.
  pub record LinkIo (W : Type 0) : Type 1 where
    pub dir : DirIo u W
    pub draw : W → Draws × W
    pub new_v4 : W → u.Uuid × W
    pub random_alphanumeric_string : ℕ → W → Bytes × W
    pub dir_link_add : DirLinkAddRequestPayload → Eff W PlainResponsePayload dir.QueryError
    pub link_edit : LinkEditRequestPayload → Eff W PlainResponsePayload dir.QueryError

-- `dir_links::Error` and `file_links::Error`
pub data DirLinkError (QueryError : Type 0) : Type 0 where
  decrypt_link_key_metadata_failed : Bytes → CryptoError → DirLinkError QueryError
  decrypt_location_name_failed : FilesError → DirLinkError QueryError
  decrypt_file_metadata_failed : FilesError → DirLinkError QueryError
  dir_link_add_query_failed : QueryError → DirLinkError QueryError

pub data FileLinkError (QueryError : Type 0) : Type 0 where
  link_edit_query_failed : QueryError → FileLinkError QueryError

-- `links::Error`
pub data LinkError (QueryError : Type 0) : Type 0 where
  bad_argument : String → LinkError QueryError
  cannot_disable_file_link : Bytes → LinkError QueryError
  cannot_enable_file_link : Bytes → LinkError QueryError
  cannot_enable_folder_link : Bytes → LinkError QueryError
  cannot_get_user_folder_contents : ApiError → LinkError QueryError
  dir_link_add_request_payload_creation_failed : DirLinkError QueryError → LinkError QueryError
  dir_link_add_query_failed : DirLinkError QueryError → LinkError QueryError
  download_dir_request_failed : DownloadDirError QueryError → LinkError QueryError
  link_edit_query_failed : FileLinkError QueryError → LinkError QueryError

module _ (t : Texts) (c : Ciphers) (u : Uuids) {E : Type 0} (api_key : Bytes) where
  -- The payload, once the link's key is decrypted and a metadata is encrypted with it.
  abbrev added :
      ItemKind
      → u.Uuid
      → ParentOrBase u
      → u.Uuid
      → Bytes
      → Outcome Bytes
      → Outcome (Result (DirLinkAddRequestPayload u) (DirLinkError E))
  added kind uuid parent_folder link_uuid link_key_metadata panics = panics
  added kind uuid parent_folder link_uuid link_key_metadata (returns metadata) = returns (
      ok (record {
        api_key = api_key;
        download_btn = DownloadBtnState.enable;
        expiration = never;
        key_metadata = link_key_metadata;
        link_uuid = link_uuid;
        metadata = metadata;
        parent = parent_folder;
        password = empty;
        password_hashed = link_empty_password_hash t;
        link_type = kind;
        uuid = uuid;
      }))

  module _ (parent_folder : ParentOrBase u) (link_uuid : u.Uuid) (link_key_metadata : Bytes)
      (master_keys : List Bytes) (draws : Draws) where
    -- `DirLinkAddRequestPayload::from_file_properties`
    unfoldable pub from_file_properties :
        u.Uuid → FileProperties → Outcome (Result (DirLinkAddRequestPayload u) (DirLinkError E))
    from_file_properties file_uuid file_properties =
        elim (decrypt_metadata_str_any_key c link_key_metadata master_keys) [
          | err e ↦ returns (err (decrypt_link_key_metadata_failed link_key_metadata e))
          | ok link_key ↦
              added ItemKind.file file_uuid parent_folder link_uuid link_key_metadata
                (encrypt_file_metadata t c file_properties link_key draws)
        ]

    -- `DirLinkAddRequestPayload::from_folder_name`
    unfoldable pub from_folder_name :
        u.Uuid → Bytes → Outcome (Result (DirLinkAddRequestPayload u) (DirLinkError E))
    from_folder_name folder_uuid folder_name =
        elim (decrypt_metadata_str_any_key c link_key_metadata master_keys) [
          | err e ↦ returns (err (decrypt_link_key_metadata_failed link_key_metadata e))
          | ok link_key ↦
              added ItemKind.folder folder_uuid parent_folder link_uuid link_key_metadata
                (encrypt_name_to_metadata t c folder_name link_key draws)
        ]

    module _ {T : Type 0} ⦃id : HasUuid u T⦄ where
      -- `DirLinkAddRequestPayload::from_file_data`
      unfoldable pub from_file_data :
          ⦃m : HasFileMetadata T⦄
          → T
          → Outcome (Result (DirLinkAddRequestPayload u) (DirLinkError E))
      from_file_data file_data = elim (decrypt_file t c file_data master_keys) [
        | err e ↦ returns (err (decrypt_file_metadata_failed e))
        | ok file_properties ↦ from_file_properties (id.uuid_ref file_data) file_properties
      ]

      -- `DirLinkAddRequestPayload::from_folder_data`
      unfoldable pub from_folder_data :
          ⦃n : HasLocationName T⦄
          → T
          → Outcome (Result (DirLinkAddRequestPayload u) (DirLinkError E))
      from_folder_data folder_data = elim (decrypt_name_metadata t c folder_data master_keys) [
        | err e ↦ returns (err (decrypt_location_name_failed e))
        | ok folder_name ↦ from_folder_name (id.uuid_ref folder_data) folder_name
      ]
