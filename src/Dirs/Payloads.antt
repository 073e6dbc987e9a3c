-- ===== src/Dirs/Payloads.antt =====
-- The payloads of src/v1/dirs.rs. `new` is `create_new`, `sub_create_new`, `rename_new` and `content_new` here, by
-- its payload; the random UUID of a new folder is an argument.
use rust_filen.Base.{ℕ, ◌++◌, Bool, true, Outcome, returns, panics}
use rust_filen.Base.Text.{Bytes, codes}
use rust_filen.Names.{Uuids, ContentKind, print_content_kind}
use rust_filen.Crypto.Primitives.{Ciphers}
use rust_filen.Crypto.Metadata.{Draws}
use rust_filen.Files.{Texts, encrypt_name_to_metadata, name_hashed}
use rust_filen.Dirs.{LocationKind}

-- `FILEN_SYNC_FOLDER_NAME`
abbrev pub filen_sync_folder_name : Bytes
filen_sync_folder_name = codes "Filen Sync"

-- A value made of one that a call may panic on.
abbrev pub made_of : {A B : Type 0} → Outcome A → (A → B) → Outcome B
made_of panics f = panics
made_of (returns a) f = returns (f a)

module _ (u : Uuids) where
  pub record DirContentRequestPayload : Type 0 where
    pub api_key : Bytes
    pub uuid : ContentKind u
    pub folders : Bytes
    pub page : ℕ
    pub app : Bool

  pub record DirCreateRequestPayload : Type 0 where
    pub api_key : Bytes
    pub name_metadata : Bytes
    pub name_hash : Bytes
    pub dir_type : LocationKind
    pub uuid : u.Uuid

  pub record DirSubCreateRequestPayload : Type 0 where
    pub api_key : Bytes
    pub name_metadata : Bytes
    pub name_hash : Bytes
    pub parent : u.Uuid
    pub uuid : u.Uuid

  pub record DirRenameRequestPayload : Type 0 where
    pub api_key : Bytes
    pub uuid : u.Uuid
    pub name_metadata : Bytes
    pub name_hash : Bytes

  -- `DirContentRequestPayload::new`
  unfoldable pub content_new : Bytes → ContentKind u → DirContentRequestPayload
  content_new api_key folder_uuid = record {
    api_key = api_key;
    uuid = folder_uuid;
    folders = codes "[\"" ++ (print_content_kind u folder_uuid ++ codes "\"]");
    page = 1;
    app = true;
  }

  module _ (t : Texts) (c : Ciphers) (api_key : Bytes) where
    -- `DirCreateRequestPayload::new`
    unfoldable pub create_new : Bytes → Bytes → u.Uuid → Draws → Outcome DirCreateRequestPayload
    create_new name last_master_key uuid draws =
        made_of (encrypt_name_to_metadata t c name last_master_key draws) (λ name_metadata. record {
          api_key = api_key;
          name_metadata = name_metadata;
          name_hash = name_hashed t name;
          dir_type = LocationKind.folder;
          uuid = uuid;
        })

    -- `DirCreateRequestPayload::payload_for_sync_folder_creation`
    unfoldable pub payload_for_sync_folder_creation :
        Bytes → u.Uuid → Draws → Outcome DirCreateRequestPayload
    payload_for_sync_folder_creation last_master_key uuid draws =
        made_of (create_new filen_sync_folder_name last_master_key uuid draws)
          (λ payload. record payload { dir_type = LocationKind.sync })

    -- `DirSubCreateRequestPayload::new`
    unfoldable pub sub_create_new :
        Bytes → u.Uuid → Bytes → u.Uuid → Draws → Outcome DirSubCreateRequestPayload
    sub_create_new name parent last_master_key uuid draws =
        made_of (encrypt_name_to_metadata t c name last_master_key draws) (λ name_metadata. record {
          api_key = api_key;
          name_metadata = name_metadata;
          name_hash = name_hashed t name;
          parent = parent;
          uuid = uuid;
        })

    -- `DirRenameRequestPayload::new`
    unfoldable pub rename_new : u.Uuid → Bytes → Bytes → Draws → Outcome DirRenameRequestPayload
    rename_new folder_uuid new_folder_name last_master_key draws =
        made_of (encrypt_name_to_metadata t c new_folder_name last_master_key draws)
          (λ name_metadata. record {
            api_key = api_key;
            uuid = folder_uuid;
            name_metadata = name_metadata;
            name_hash = name_hashed t new_folder_name;
          })
