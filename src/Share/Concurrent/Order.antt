-- ===== src/Share/Concurrent/Order.antt =====
-- `share_folder_recursively_async` of src/v1/share.rs: which shares it leaves with the servers, in whichever
-- order they take effect.
use rust_filen.Base.{ℕ, ◌≡◌, ◌∙◌, ap, List, ◌++◌, map, Result, ok, err, returns, ◌⊎◌, inl, inr}
use rust_filen.Base.Text.{Bytes}
use rust_filen.Base.Effects.{context-cases}
use rust_filen.Backoff.Call.{attempts}
use rust_filen.Backoff.Progress.{Sends}
use rust_filen.Backoff.Tasks.Stages.{InStages, JoinsBoth-InStages}
use rust_filen.Names.{Uuids, parent, as_parent_or_none}
use rust_filen.Api.{ResponsePayload, data_ref_or_err}
use rust_filen.Api.Accepted.{forget-Adds}
use rust_filen.Crypto.Primitives.{Ciphers, IsCiphers}
use rust_filen.Crypto.Rsa.{Rsa, IsKeyPair}
use rust_filen.Files.{Texts}
use rust_filen.Files.Json.{IsJson}
use rust_filen.Folders.{
  DownloadDirResponseData, folder_data_uuid, file_data_uuid, folder_data_name, file_data_metadata,
}
use rust_filen.Folders.Listing.{Item, asks, attempts-keeps}
use rust_filen.Share.{
  ShareRequestPayload, ShareIo, cannot_share_file, cannot_share_folder, download_dir_request_failed,
  from_file_data, from_folder_data,
}
use rust_filen.Share.Requests.{share_request}
use rust_filen.Share.Receiver.{
  IsShareIo, IsShareOf, from_folder_data-IsShareOf, from_file_data-IsShareOf,
}
use rust_filen.Share.Accepted.{seeded-Adds}
use rust_filen.Share.Concurrent.{
  Failed, share_file_async, share_folder_async, share_one_folder_async, share_one_file_async,
  list_async, ShareFolderRecursivelyAsync, unlisted, without_contents, with_contents,
}

module _ (t : Texts) (c : Ciphers) (rsa : Rsa) (u : Uuids) {W : Type 0} (io : ShareIo u W)
    (accepted : W → List (ShareRequestPayload u)) (lawful : IsShareIo io accepted)
    (api_key : Bytes) where
  list_async-keeps :
      (n : ℕ) (folder_uuid : u.Uuid)
      (r : Result (ResponsePayload (DownloadDirResponseData u)) (Failed t c rsa u io api_key))
      (w w' : W)
      → list_async t c rsa u io api_key n folder_uuid w ≡ returns (r, w')
      → accepted w' ≡ accepted w
  unfolding list_async
  list_async-keeps n folder_uuid r w w' h =
      let op = attempts n (asks u io.dir accepted lawful.download_dir_keeps api_key folder_uuid) in
      elim (context-cases download_dir_request_failed op r w w' h) [
        | inl (a, got, _) ↦
            attempts-keeps u io.dir accepted lawful.download_dir_keeps api_key folder_uuid n (ok a)
              w w' got
        | inr (e, got, _) ↦
            attempts-keeps u io.dir accepted lawful.download_dir_keeps api_key folder_uuid n (err e)
              w w' got
      ]

  module _ (json : IsJson t) (ciphers : IsCiphers c) {public_key private_key : Bytes}
      (pair : IsKeyPair rsa public_key private_key) (receiver_email : Bytes)
      (master_keys : List Bytes) where
    abbrev IsShared : Item u → ShareRequestPayload u → Type 0
    IsShared = IsShareOf t c rsa u api_key receiver_email private_key master_keys

    folders-Sends :
        Sends accepted IsShared inl
          (share_one_folder_async t c rsa u io api_key receiver_email public_key master_keys)
    unfolding share_one_folder_async share_folder_async share_request
    folders-Sends folder = forget-Adds accepted (IsShared (inl folder)) _ (
        seeded-Adds t c rsa u io accepted lawful api_key json ciphers pair receiver_email
          master_keys (inl folder) (cannot_share_folder folder.uuid)
          (λ seed.
            from_folder_data t c rsa u api_key (as_parent_or_none u folder.parent) receiver_email
              public_key master_keys seed folder)
          (from_folder_data-IsShareOf t c rsa u json ciphers pair api_key receiver_email master_keys
            folder))

    files-Sends :
        Sends accepted IsShared inr
          (share_one_file_async t c rsa u io api_key receiver_email public_key master_keys)
    unfolding share_one_file_async share_file_async share_request
    files-Sends file = forget-Adds accepted (IsShared (inr file)) _ (
        seeded-Adds t c rsa u io accepted lawful api_key json ciphers pair receiver_email
          master_keys (inr file) (cannot_share_file file.uuid)
          (λ seed.
            from_file_data t c rsa u api_key (parent file.parent) receiver_email public_key
              master_keys seed file)
          (from_file_data-IsShareOf t c rsa u json ciphers pair api_key receiver_email master_keys
            file))

-- Whatever `share_folder_recursively_async` results in: the servers have accepted nothing new and the
-- result is an error, or it has the folder's content and they have accepted one share for each of some
-- folders of the content, in some order, and it fails, or one for each of its folders, in some order,
-- and after all of those one for each of its files, in some order: for all files if it succeeds, and
-- not for all if it fails. Each share names the item and its parent, and the receiver's private key opens
-- its metadata to what the master keys open the item's metadata to. Stated for a log of the accepted
-- shares, a JSON crate, ciphers and a key pair that keep their promises.
pub ShareFolderRecursivelyAsync-InStages :
    (t : Texts) (c : Ciphers) (rsa : Rsa) (u : Uuids) {W : Type 0} (io : ShareIo u W)
    (accepted : W → List (ShareRequestPayload u)) (lawful : IsShareIo io accepted) (api_key : Bytes)
    (json : IsJson t) (ciphers : IsCiphers c) {public_key private_key : Bytes}
    (pair : IsKeyPair rsa public_key private_key) (receiver_email : Bytes)
    (master_keys : List Bytes) (n : ℕ) (folder_uuid : u.Uuid) (w w' : W)
    (r : Result (Unit {0}) (Failed t c rsa u io api_key))
    → ShareFolderRecursivelyAsync t c rsa u io api_key receiver_email public_key master_keys n
        folder_uuid w r w'
    → ((e : Failed t c rsa u io api_key) × (r ≡ err e) × (accepted w' ≡ accepted w))
      ⊎ ((response : ResponsePayload (DownloadDirResponseData u))
          × (contents : DownloadDirResponseData u) × (v : W) × (list_async t c rsa u io api_key n
                folder_uuid w
              ≡ returns (ok response, v))
          × (data_ref_or_err response ≡ ok contents)
          × (zs : List (ShareRequestPayload u)) × InStages
              (IsShareOf t c rsa u api_key receiver_email private_key master_keys)
              (map inl contents.folders)
              (map inr contents.files)
              r
              zs
          × (accepted w' ≡ accepted w ++ zs))
ShareFolderRecursivelyAsync-InStages t c rsa u io accepted lawful api_key json ciphers pair
      receiver_email master_keys n folder_uuid w w' r (unlisted e ran returned) =
    inl (
      e,
      returned,
      list_async-keeps t c rsa u io accepted lawful api_key n folder_uuid (err e) w w' ran,
    )
ShareFolderRecursivelyAsync-InStages t c rsa u io accepted lawful api_key json ciphers pair
      receiver_email master_keys n folder_uuid w w' r
      (without_contents response e ran none_there returned) =
    inl (
      _,
      returned,
      list_async-keeps t c rsa u io accepted lawful api_key n folder_uuid (ok response) w w' ran,
    )
ShareFolderRecursivelyAsync-InStages t c rsa u io accepted lawful api_key json ciphers pair
      receiver_email master_keys n folder_uuid w w' r
      (with_contents response contents v ran found joins) =
    let kept =
      list_async-keeps t c rsa u io accepted lawful api_key n folder_uuid (ok response) w v ran in
    let (zs, staged, grew) =
      JoinsBoth-InStages accepted (IsShareOf t c rsa u api_key receiver_email _ master_keys) inl inr
        _ _
        (folders-Sends t c rsa u io accepted lawful api_key json ciphers pair receiver_email
          master_keys)
        (files-Sends t c rsa u io accepted lawful api_key json ciphers pair receiver_email
          master_keys)
        n contents.folders contents.files tt r v w' joins in
    inr (response, contents, v, ran, found, zs, staged, grew ∙ ap (λ ys. ys ++ zs) kept)
