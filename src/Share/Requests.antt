-- ===== src/Share/Requests.antt =====
-- The requests that share a file, a folder, and a folder with all that it holds: `share_file`,
-- `share_folder` and `share_folder_recursively` of src/v1/share.rs.
use rust_filen.Base.{List, Result, ok, returns, map_err}
use rust_filen.Base.Text.{Bytes}
use rust_filen.Base.Effects.{Eff, ◌>>=◌, lift, context, traverse}
use rust_filen.Backoff.{RetrySettings, Retry, call}
use rust_filen.Names.{Uuids, ParentOrNone, parent, as_parent_or_none}
use rust_filen.Api.{PlainResponsePayload, data_ref_or_err}
use rust_filen.Api.Accepted.{by_status, message_or_default}
use rust_filen.Crypto.Primitives.{Ciphers}
use rust_filen.Crypto.Rsa.{Rsa}
use rust_filen.Files.{Texts}
use rust_filen.Folders.{
  FolderData, FileData, HasUuid, HasFileMetadata, HasLocationName, decrypt_file,
  download_dir_request, folder_data_uuid, file_data_uuid, folder_data_name, file_data_metadata,
}
use rust_filen.Share.{
  ShareRequestPayload, ShareIo, ShareError, cannot_share_file, cannot_share_folder,
  cannot_get_user_folder_contents, decrypt_file_metadata_failed, download_dir_request_failed,
  encrypt_file_metadata_rsa_failed, share_query_failed, from_file_properties, from_folder_data,
}

module _ (t : Texts) (c : Ciphers) (rsa : Rsa) (u : Uuids) {W : Type 0} (io : ShareIo u W)
    (api_key : Bytes) where
  abbrev pub Failure : Type 0
  Failure = ShareError u io.dir.QueryError

  unfoldable pub share_request : ShareRequestPayload u → Eff W PlainResponsePayload Failure
  share_request payload = context share_query_failed (io.share payload)

  -- A result that is made with a drawn seed.
  abbrev pub with_seed : {A : Type 0} → (Bytes → Result A Failure) → Eff W A Failure
  with_seed make w = let (seed, w') = io.draw_seed w in returns (make seed, w')

  module _ {T : Type 0} ⦃id : HasUuid u T⦄ (parent_folder : ParentOrNone u)
      (receiver_email receiver_public_key : Bytes) (master_keys : List Bytes) where
    unfoldable pub share_file : ⦃m : HasFileMetadata T⦄ → T → Eff W Bytes Failure
    share_file ⦃m⦄ file_data = do
      file_properties ← lift (
          map_err (decrypt_file_metadata_failed (m.file_metadata_ref file_data))
            (decrypt_file t c file_data master_keys))
      share_payload ← with_seed (λ seed.
          map_err (encrypt_file_metadata_rsa_failed (m.file_metadata_ref file_data)) (
            from_file_properties t c rsa u api_key (id.uuid_ref file_data) file_properties
              parent_folder receiver_email receiver_public_key seed))
      response ← share_request share_payload
      lift (
          by_status message_or_default (λ r. cannot_share_file (id.uuid_ref file_data) r.message)
            response)

    unfoldable pub share_folder : ⦃n : HasLocationName T⦄ → T → Eff W Bytes Failure
    share_folder folder_data = do
      share_payload ← with_seed (λ seed.
          from_folder_data t c rsa u api_key parent_folder receiver_email receiver_public_key
            master_keys seed folder_data)
      response ← share_request share_payload
      lift (
          by_status message_or_default
            (λ r. cannot_share_folder (id.uuid_ref folder_data) r.message) response)

  module _ (receiver_email receiver_public_key : Bytes) (master_keys : List Bytes) where
    -- One folder and one file of `share_folder_recursively`, whose message is dropped.
    unfoldable pub share_one_folder : FolderData u → Eff W (Unit {0}) Failure
    share_one_folder folder =
        share_folder (as_parent_or_none u folder.parent) receiver_email receiver_public_key
          master_keys folder
        >>= λ _. lift (ok tt)

    unfoldable pub share_one_file : FileData u → Eff W (Unit {0}) Failure
    share_one_file file =
        share_file (parent file.parent) receiver_email receiver_public_key master_keys file >>= λ _.
        lift (ok tt)

    unfoldable pub share_folder_recursively :
        Retry W → RetrySettings → u.Uuid → Eff W (Unit {0}) Failure
    share_folder_recursively retry settings folder_uuid = do
      contents_response ← context download_dir_request_failed (
          call retry settings
            (download_dir_request u io.dir (record { api_key = api_key; uuid = folder_uuid })))
      contents ← lift (map_err cannot_get_user_folder_contents (data_ref_or_err contents_response))
      shared_folders ←
          traverse (λ folder. call retry settings (share_one_folder folder)) contents.folders
      shared_files ← traverse (λ file. call retry settings (share_one_file file)) contents.files
      lift (ok tt)
