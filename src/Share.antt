-- ===== src/Share.antt =====
-- Sharing with another user: src/v1/share.rs. Here its types and how a request payload is made, below
-- the requests.
pub mod Requests
pub mod Accepted
pub mod Receiver
pub mod Recursive
pub mod Concurrent
use rust_filen.Base.{Option, List, Result, ok, map_err}
use rust_filen.Base.Text.{Bytes}
use rust_filen.Base.Fallible.{◌>>=◌}
use rust_filen.Base.Effects.{Eff}
use rust_filen.Names.{Uuids, ParentOrNone}
use rust_filen.Api.{ApiError, PlainResponsePayload}
use rust_filen.Crypto.Primitives.{Ciphers, CryptoError}
use rust_filen.Crypto.Rsa.{Rsa}
use rust_filen.Files.{FileProperties, Texts, FilesError}
use rust_filen.Files.Shared.{to_metadata_rsa_string, encrypt_name_to_metadata_rsa}
use rust_filen.Folders.{
  HasUuid, HasFileMetadata, HasLocationName, decrypt_file, decrypt_name_metadata, DirIo,
  DownloadDirError,
}

pub data ShareTarget : Type 0 where
  file : ShareTarget
  folder : ShareTarget

module _ (u : Uuids) where
  pub record ShareRequestPayload : Type 0 where
    pub api_key : Bytes
    pub email : Bytes
    pub metadata : Bytes
    pub parent : ParentOrNone u
    pub share_type : ShareTarget
    pub uuid : u.Uuid

  -- What sharing uses of the world besides the content of folders: the seed of the RSA padding, and the
  -- request of `queries` to `SHARE_PATH`.
  pub record ShareIo (W : Type 0) : Type 1 where
    pub dir : DirIo u W
    pub draw_seed : W → Bytes × W
    pub share : ShareRequestPayload → Eff W PlainResponsePayload dir.QueryError

  -- `share::Error`; the message of a refusal is printed in debug format, so that it is kept as it is.
  pub data ShareError (QueryError : Type 0) : Type 0 where
    cannot_share_file : u.Uuid → Option Bytes → ShareError QueryError
    cannot_share_folder : u.Uuid → Option Bytes → ShareError QueryError
    cannot_get_user_folder_contents : ApiError → ShareError QueryError
    decrypt_file_metadata_failed : Bytes → FilesError → ShareError QueryError
    decrypt_location_name_failed : Bytes → FilesError → ShareError QueryError
    download_dir_request_failed : DownloadDirError QueryError → ShareError QueryError
    encrypt_file_metadata_rsa_failed : Bytes → FilesError → ShareError QueryError
    encrypt_folder_metadata_rsa_failed : Bytes → CryptoError → ShareError QueryError
    share_query_failed : QueryError → ShareError QueryError

module _ (t : Texts) (c : Ciphers) (rsa : Rsa) (u : Uuids) (api_key : Bytes) where
  -- `ShareRequestPayload::from_file_properties`; `seed` is the seed of the RSA padding.
  unfoldable pub from_file_properties :
      u.Uuid
      → FileProperties
      → ParentOrNone u
      → (email rsa_public_key seed : Bytes) → Result (ShareRequestPayload u) FilesError
  from_file_properties file_uuid file_properties parent_folder email rsa_public_key seed = do
    metadata ← to_metadata_rsa_string t c rsa file_properties rsa_public_key seed
    ok (record {
      api_key = api_key;
      email = email;
      metadata = metadata;
      parent = parent_folder;
      share_type = ShareTarget.file;
      uuid = file_uuid;
    })

  -- `ShareRequestPayload::from_folder_name`
  unfoldable pub from_folder_name :
      u.Uuid
      → Bytes
      → ParentOrNone u
      → (email rsa_public_key seed : Bytes) → Result (ShareRequestPayload u) CryptoError
  from_folder_name folder_uuid folder_name parent_folder email rsa_public_key seed = do
    metadata ← encrypt_name_to_metadata_rsa t c rsa folder_name rsa_public_key seed
    ok (record {
      api_key = api_key;
      email = email;
      metadata = metadata;
      parent = parent_folder;
      share_type = ShareTarget.folder;
      uuid = folder_uuid;
    })

  module _ {E T : Type 0} ⦃id : HasUuid u T⦄ (parent_folder : ParentOrNone u)
      (receiver_email receiver_public_key : Bytes) (master_keys : List Bytes) (seed : Bytes) where
    -- `ShareRequestPayload::from_file_data`
    unfoldable pub from_file_data :
        ⦃m : HasFileMetadata T⦄ → T → Result (ShareRequestPayload u) (ShareError u E)
    from_file_data ⦃m⦄ file_data = do
      file_properties ←
          map_err (decrypt_file_metadata_failed (m.file_metadata_ref file_data))
            (decrypt_file t c file_data master_keys)
      map_err (encrypt_file_metadata_rsa_failed (m.file_metadata_ref file_data)) (
          from_file_properties (id.uuid_ref file_data) file_properties parent_folder receiver_email
            receiver_public_key seed)

    -- `ShareRequestPayload::from_folder_data`
    unfoldable pub from_folder_data :
        ⦃n : HasLocationName T⦄ → T → Result (ShareRequestPayload u) (ShareError u E)
    from_folder_data ⦃n⦄ folder_data = do
      folder_name ←
          map_err (decrypt_location_name_failed (n.name_metadata_ref folder_data))
            (decrypt_name_metadata t c folder_data master_keys)
      map_err (encrypt_folder_metadata_rsa_failed (n.name_metadata_ref folder_data)) (
          from_folder_name (id.uuid_ref folder_data) folder_name parent_folder receiver_email
            receiver_public_key seed)
