-- ===== src/Share/Concurrent.antt =====
-- The asynchronous sharing of src/v1/share.rs: `share_file_async`, `share_folder_async` and
-- `share_folder_recursively_async`, whose shares run at the same time.
pub mod Order
use rust_filen.Base.{ℕ, ◌≡◌, Result, ok, err, returns, List}
use rust_filen.Base.Text.{Bytes}
use rust_filen.Base.Effects.{Eff, ◌>>=◌, lift, context}
use rust_filen.Backoff.Call.{attempts}
use rust_filen.Backoff.Tasks.{JoinsBoth}
use rust_filen.Names.{Uuids, ParentOrNone, parent, as_parent_or_none}
use rust_filen.Api.{ApiError, ResponsePayload, data_ref_or_err}
use rust_filen.Api.Accepted.{by_status, message_or_default}
use rust_filen.Crypto.Primitives.{Ciphers}
use rust_filen.Crypto.Rsa.{Rsa}
use rust_filen.Files.{Texts}
use rust_filen.Folders.{
  FolderData, FileData, HasUuid, HasFileMetadata, HasLocationName, DownloadDirError,
  DownloadDirResponseData, download_dir_request, folder_data_uuid, file_data_uuid, folder_data_name,
  file_data_metadata,
}
use rust_filen.Share.{
  ShareIo, cannot_share_file, cannot_share_folder, cannot_get_user_folder_contents,
  download_dir_request_failed, from_file_data, from_folder_data,
}
use rust_filen.Share.Requests.{Failure, share_request, with_seed}

module _ (t : Texts) (c : Ciphers) (rsa : Rsa) (u : Uuids) {W : Type 0} (io : ShareIo u W)
    (api_key : Bytes) where
  abbrev pub Failed : Type 0
  Failed = Failure t c rsa u io api_key

  module _ {T : Type 0} ⦃id : HasUuid u T⦄ (parent_folder : ParentOrNone u)
      (receiver_email receiver_public_key : Bytes) (master_keys : List Bytes) where
    unfoldable pub share_file_async : ⦃m : HasFileMetadata T⦄ → T → Eff W Bytes Failed
    share_file_async file_data = do
      share_payload ← with_seed t c rsa u io api_key (λ seed.
          from_file_data t c rsa u api_key parent_folder receiver_email receiver_public_key
            master_keys seed file_data)
      response ← share_request t c rsa u io api_key share_payload
      lift (
          by_status message_or_default (λ r. cannot_share_file (id.uuid_ref file_data) r.message)
            response)

    unfoldable pub share_folder_async : ⦃n : HasLocationName T⦄ → T → Eff W Bytes Failed
    share_folder_async folder_data = do
      share_payload ← with_seed t c rsa u io api_key (λ seed.
          from_folder_data t c rsa u api_key parent_folder receiver_email receiver_public_key
            master_keys seed folder_data)
      response ← share_request t c rsa u io api_key share_payload
      lift (
          by_status message_or_default
            (λ r. cannot_share_folder (id.uuid_ref folder_data) r.message) response)

  -- The listing of the folder, tried again at most `n` times.
  unfoldable pub list_async :
      ℕ → u.Uuid → Eff W (ResponsePayload (DownloadDirResponseData u)) Failed
  list_async n folder_uuid = context download_dir_request_failed (
      attempts n (download_dir_request u io.dir (record { api_key = api_key; uuid = folder_uuid })))

  module _ (receiver_email receiver_public_key : Bytes) (master_keys : List Bytes) where
    -- One folder and one file of `share_folder_recursively_async`, whose message is dropped.
    unfoldable pub share_one_folder_async : FolderData u → Eff W (Unit {0}) Failed
    share_one_folder_async folder =
        share_folder_async (as_parent_or_none u folder.parent) receiver_email receiver_public_key
          master_keys folder
        >>= λ _. lift (ok tt)

    unfoldable pub share_one_file_async : FileData u → Eff W (Unit {0}) Failed
    share_one_file_async file =
        share_file_async (parent file.parent) receiver_email receiver_public_key master_keys file
        >>= λ _. lift (ok tt)

    -- What `share_folder_recursively_async` may come to. Each call is tried again at most `n` times.
    pub data ShareFolderRecursivelyAsync (n : ℕ) (folder_uuid : u.Uuid)
        : W → Result (Unit {0}) Failed → W → Type 0 where
      unlisted :
          {w : W} {r : Result (Unit {0}) Failed} {w' : W} (e : Failed)
          → list_async n folder_uuid w ≡ returns (err e, w')
          → r ≡ err e
          → ShareFolderRecursivelyAsync n folder_uuid w r w'
      without_contents :
          {w : W} {r : Result (Unit {0}) Failed} {w' : W}
          (response : ResponsePayload (DownloadDirResponseData u)) (e : ApiError)
          → list_async n folder_uuid w ≡ returns (ok response, w')
          → data_ref_or_err response ≡ err e
          → r ≡ err (cannot_get_user_folder_contents e)
          → ShareFolderRecursivelyAsync n folder_uuid w r w'
      with_contents :
          {w : W} {r : Result (Unit {0}) Failed} {w' : W}
          (response : ResponsePayload (DownloadDirResponseData u))
          (contents : DownloadDirResponseData u) (v : W)
          → list_async n folder_uuid w ≡ returns (ok response, v)
          → data_ref_or_err response ≡ ok contents
          → JoinsBoth share_one_folder_async share_one_file_async n contents.folders contents.files
              tt v r w'
          → ShareFolderRecursivelyAsync n folder_uuid w r w'
