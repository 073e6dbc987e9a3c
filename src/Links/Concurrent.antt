-- ===== src/Links/Concurrent.antt =====
-- The asynchronous links of folders of src/v1/links.rs: `add_file_to_link_async`,
-- `add_folder_to_link_async` and `link_folder_recursively_async`, whose additions run at the same time.
pub mod Order
use rust_filen.Base.{ℕ, ◌≡◌, Option, some, none, List, Result, ok, err, returns, get_last?}
use rust_filen.Base.Text.{Bytes}
use rust_filen.Base.Effects.{Eff, ◌>>=◌, lift, context}
use rust_filen.Backoff.Call.{attempts}
use rust_filen.Backoff.Tasks.{JoinsBoth}
use rust_filen.Names.{Uuids, ParentOrBase, folder}
use rust_filen.Api.{ApiError, ResponsePayload, data_ref_or_err}
use rust_filen.Api.Accepted.{by_status, message_or_default}
use rust_filen.Crypto.Primitives.{Ciphers}
use rust_filen.Files.{Texts}
use rust_filen.Folders.{
  FolderData, FileData, HasUuid, HasFileMetadata, HasLocationName, DownloadDirResponseData,
  download_dir_request, folder_data_uuid, file_data_uuid, folder_data_name, file_data_metadata,
}
use rust_filen.Links.{
  LinkIdWithKey, LinkIo, bad_argument, cannot_enable_file_link, cannot_enable_folder_link,
  cannot_get_user_folder_contents, download_dir_request_failed, from_file_data, from_folder_data,
}
use rust_filen.Links.Requests.{Failure, linked_parent, generate, dir_link_add_request, with_draws}

module _ (t : Texts) (c : Ciphers) (u : Uuids) {W : Type 0} (io : LinkIo u W)
    (api_key : Bytes) where
  abbrev pub Failed : Type 0
  Failed = Failure t c u io api_key

  module _ {T : Type 0} ⦃id : HasUuid u T⦄ (parent_folder : ParentOrBase u) (link_uuid : u.Uuid)
      (link_key_metadata : Bytes) (master_keys : List Bytes) where
    unfoldable pub add_file_to_link_async : ⦃m : HasFileMetadata T⦄ → T → Eff W Bytes Failed
    add_file_to_link_async file_data = do
      dir_link_add_payload ← with_draws t c u io api_key (λ draws.
          from_file_data t c u api_key parent_folder link_uuid link_key_metadata master_keys draws
            file_data)
      dir_link_add_response ← dir_link_add_request t c u io api_key dir_link_add_payload
      lift (
          by_status message_or_default (λ r. cannot_enable_file_link (message_or_default r))
            dir_link_add_response)

    unfoldable pub add_folder_to_link_async : ⦃n : HasLocationName T⦄ → T → Eff W Bytes Failed
    add_folder_to_link_async folder_data = do
      dir_link_add_payload ← with_draws t c u io api_key (λ draws.
          from_folder_data t c u api_key parent_folder link_uuid link_key_metadata master_keys draws
            folder_data)
      dir_link_add_response ← dir_link_add_request t c u io api_key dir_link_add_payload
      lift (
          by_status message_or_default (λ r. cannot_enable_folder_link (message_or_default r))
            dir_link_add_response)

  -- The listing of the folder, tried again at most `n` times.
  unfoldable pub list_to_link_async :
      ℕ → u.Uuid → Eff W (ResponsePayload (DownloadDirResponseData u)) Failed
  list_to_link_async n folder_uuid = context download_dir_request_failed (
      attempts n (download_dir_request u io.dir (record { api_key = api_key; uuid = folder_uuid })))

  module _ (master_keys : List Bytes) (folder_uuid : u.Uuid) where
    -- One folder and one file of `link_folder_recursively_async`, whose message is dropped.
    unfoldable pub add_one_folder_async : LinkIdWithKey u → FolderData u → Eff W (Unit {0}) Failed
    add_one_folder_async link d =
        add_folder_to_link_async (linked_parent u folder_uuid d) link.link_uuid
          link.link_key_metadata master_keys d
        >>= λ _. lift (ok tt)

    unfoldable pub add_one_file_async : LinkIdWithKey u → FileData u → Eff W (Unit {0}) Failed
    add_one_file_async link d =
        add_file_to_link_async (folder d.parent) link.link_uuid link.link_key_metadata master_keys d
        >>= λ _. lift (ok tt)

    -- What `link_folder_recursively_async` may come to. Each call is tried again at most `n` times.
    pub data LinkFolderRecursivelyAsync (n : ℕ)
        : W → Result (LinkIdWithKey u) Failed → W → Type 0 where
      without_key :
          {w : W} {r : Result (LinkIdWithKey u) Failed} {w' : W}
          → get_last? master_keys ≡ none
          → r ≡ err (bad_argument "master keys cannot be empty")
          → w ≡ w'
          → LinkFolderRecursivelyAsync n w r w'
      unlisted :
          {w : W} {r : Result (LinkIdWithKey u) Failed} {w' : W} (key : Bytes) (e : Failed)
          → get_last? master_keys ≡ some key
          → list_to_link_async n folder_uuid w ≡ returns (err e, w')
          → r ≡ err e
          → LinkFolderRecursivelyAsync n w r w'
      without_contents :
          {w : W} {r : Result (LinkIdWithKey u) Failed} {w' : W} (key : Bytes)
          (response : ResponsePayload (DownloadDirResponseData u)) (e : ApiError)
          → get_last? master_keys ≡ some key
          → list_to_link_async n folder_uuid w ≡ returns (ok response, w')
          → data_ref_or_err response ≡ err e
          → r ≡ err (cannot_get_user_folder_contents e)
          → LinkFolderRecursivelyAsync n w r w'
      with_contents :
          {w : W} {r : Result (LinkIdWithKey u) Failed} {w' : W} (key : Bytes)
          (response : ResponsePayload (DownloadDirResponseData u))
          (contents : DownloadDirResponseData u) (link : LinkIdWithKey u) (v v' : W)
          → get_last? master_keys ≡ some key
          → list_to_link_async n folder_uuid w ≡ returns (ok response, v)
          → data_ref_or_err response ≡ ok contents
          → generate t c u io api_key key v ≡ returns (ok link, v')
          → JoinsBoth
              (add_one_folder_async link)
              (add_one_file_async link)
              n
              contents.folders
              contents.files
              link
              v'
              r
              w'
          → LinkFolderRecursivelyAsync n w r w'
