-- ===== src/Share/Recursive.antt =====
-- `share_folder_recursively` of src/v1/share.rs: which shares it leaves with the servers.
use rust_filen.Base.{◌≡◌, ap, ◌∙◌, List, ◌++◌, Result, ok, returns, inl, inr}
use rust_filen.Base.Text.{Bytes}
use rust_filen.Base.Effects.{Eff}
use rust_filen.Backoff.{RetrySettings, Retry, call}
use rust_filen.Backoff.Call.{IsRetry}
use rust_filen.Backoff.Progress.{Sends, call-Sends}
use rust_filen.Backoff.Stages.{Left, stages, stages-Left}
use rust_filen.Names.{Uuids}
use rust_filen.Api.{ResponsePayload, data_ref_or_err}
use rust_filen.Crypto.Primitives.{Ciphers, IsCiphers}
use rust_filen.Crypto.Rsa.{Rsa, IsKeyPair}
use rust_filen.Files.{Texts}
use rust_filen.Files.Json.{IsJson}
use rust_filen.Folders.{FolderData, FileData, DownloadDirResponseData}
use rust_filen.Folders.Listing.{Item, items, listing, listing-keeps}
use rust_filen.Share.{ShareRequestPayload, ShareIo}
use rust_filen.Share.Requests.{Failure, share_one_file, share_one_folder, share_folder_recursively}
use rust_filen.Share.Receiver.{IsShareIo, IsShareOf}
use rust_filen.Share.Accepted.{share_one_folder-Sends, share_one_file-Sends}

module _ (t : Texts) (c : Ciphers) (rsa : Rsa) (u : Uuids) {W : Type 0} (io : ShareIo u W)
    (accepted : W → List (ShareRequestPayload u)) (lawful : IsShareIo io accepted) (api_key : Bytes)
    (json : IsJson t) (ciphers : IsCiphers c) {public_key private_key : Bytes}
    (pair : IsKeyPair rsa public_key private_key) (receiver_email : Bytes)
    (master_keys : List Bytes) (retry : Retry W) (retries : IsRetry retry)
    (settings : RetrySettings) (contents : DownloadDirResponseData u) where
  abbrev Failed : Type 0
  Failed = Failure t c rsa u io api_key

  abbrev IsShared : Item u → ShareRequestPayload u → Type 0
  IsShared = IsShareOf t c rsa u api_key receiver_email private_key master_keys

  abbrev one_folder : FolderData u → Eff W (Unit {0}) Failed
  one_folder folder =
      call retry settings
        (share_one_folder t c rsa u io api_key receiver_email public_key master_keys folder)

  abbrev one_file : FileData u → Eff W (Unit {0}) Failed
  one_file file =
      call retry settings
        (share_one_file t c rsa u io api_key receiver_email public_key master_keys file)

  folders-Sends : Sends accepted IsShared inl one_folder
  folders-Sends =
      call-Sends accepted IsShared inl retry retries settings
        (share_one_folder t c rsa u io api_key receiver_email public_key master_keys)
        (share_one_folder-Sends t c rsa u io accepted lawful api_key json ciphers pair
          receiver_email master_keys)

  files-Sends : Sends accepted IsShared inr one_file
  files-Sends =
      call-Sends accepted IsShared inr retry retries settings
        (share_one_file t c rsa u io api_key receiver_email public_key master_keys)
        (share_one_file-Sends t c rsa u io accepted lawful api_key json ciphers pair receiver_email
          master_keys)

  shared-Left :
      (r : Result (Unit {0}) Failed) (w w' : W)
      → stages accepted IsShared inl inr one_folder one_file folders-Sends files-Sends
          contents.folders contents.files tt w
        ≡ returns (r, w')
      → (xs : List (ShareRequestPayload u)) × Left IsShared (items u contents) r xs
        × (accepted w' ≡ accepted w ++ xs)
  shared-Left =
      stages-Left accepted IsShared inl inr one_folder one_file folders-Sends files-Sends
        contents.folders contents.files tt

-- Whatever sharing a folder with all that it holds results in, once its content is known: the servers
-- have accepted, besides what they had accepted before, one share for each folder and then for each
-- file of the content, in that order, all of them if it succeeds, and otherwise those before an
-- item that is left out. Each share names the item and its parent, and the receiver's
-- private key opens its metadata to what the master keys open the item's metadata to. Stated for a log of
-- the accepted shares, a JSON crate, ciphers, a key pair and a retry crate that keep their promises.
pub share_folder_recursively-Left :
    (t : Texts) (c : Ciphers) (rsa : Rsa) (u : Uuids) {W : Type 0} (io : ShareIo u W)
    (accepted : W → List (ShareRequestPayload u)) (lawful : IsShareIo io accepted) (api_key : Bytes)
    (json : IsJson t) (ciphers : IsCiphers c) {public_key private_key : Bytes}
    (pair : IsKeyPair rsa public_key private_key) (receiver_email : Bytes)
    (master_keys : List Bytes) (retry : Retry W) (retries : IsRetry retry)
    (settings : RetrySettings) (folder_uuid : u.Uuid)
    (response : ResponsePayload (DownloadDirResponseData u)) (contents : DownloadDirResponseData u)
    (w v w' : W) (r : Result (Unit {0}) (Failure t c rsa u io api_key))
    → listing u io.dir retry settings api_key folder_uuid w ≡ returns (ok response, v)
    → data_ref_or_err response ≡ ok contents
    → share_folder_recursively t c rsa u io api_key receiver_email public_key master_keys retry
        settings folder_uuid w
      ≡ returns (r, w')
    → (xs : List (ShareRequestPayload u)) × Left
        (IsShareOf t c rsa u api_key receiver_email private_key master_keys)
        (items u contents)
        r
        xs
      × (accepted w' ≡ accepted w ++ xs)
unfolding share_folder_recursively
share_folder_recursively-Left t c rsa u io accepted lawful api_key json ciphers pair receiver_email
      master_keys retry retries settings folder_uuid response contents w v w' r listed found h =
    let kept =
      listing-keeps u io.dir accepted lawful.download_dir_keeps api_key folder_uuid retry retries
        settings response w v listed in
    let (xs, left, grew) =
      shared-Left t c rsa u io accepted lawful api_key json ciphers pair receiver_email master_keys
        retry retries settings contents r v w' (rw (listed, found) at h) in
    (xs, left, grew ∙ ap (λ ys. ys ++ xs) kept)
