-- ===== src/Links/Concurrent/Order.antt =====
-- `link_folder_recursively_async` of src/v1/links.rs: the link that it makes, and the items that it adds to
-- it, in whichever order that takes effect.
use rust_filen.Base.{
  ℕ, ◌≡◌, sym, ◌∙◌, ap, List, ◌++◌, map, some, Result, ok, err, returns, ◌⊎◌, inl, inr, get_last?,
}
use rust_filen.Base.Text.{Bytes}
use rust_filen.Base.Effects.{context-cases}
use rust_filen.Backoff.Call.{attempts}
use rust_filen.Backoff.Progress.{Sends}
use rust_filen.Backoff.Tasks.Stages.{InStages, JoinsBoth-InStages, JoinsBoth-ok}
use rust_filen.Names.{Uuids, IsUuids}
use rust_filen.Api.{ResponsePayload, data_ref_or_err}
use rust_filen.Api.Accepted.{forget-Adds}
use rust_filen.Crypto.Primitives.{Ciphers, IsCiphers}
use rust_filen.Files.{Texts}
use rust_filen.Files.Json.{IsJson}
use rust_filen.Folders.{
  DownloadDirResponseData, folder_data_uuid, file_data_uuid, folder_data_name, file_data_metadata,
}
use rust_filen.Folders.Listing.{Item, asks, attempts-keeps}
use rust_filen.Links.{DirLinkAddRequestPayload, LinkIdWithKey, LinkIo, download_dir_request_failed}
use rust_filen.Links.Requests.{generate, dir_link_add_request}
use rust_filen.Links.Added.{IsAdded}
use rust_filen.Links.Accepted.{IsLinkIo, folder-Adds, file-Adds}
use rust_filen.Links.Recursive.{IsKeyed, generate-total}
use rust_filen.Links.Concurrent.{
  Failed, add_file_to_link_async, add_folder_to_link_async, add_one_folder_async,
  add_one_file_async, list_to_link_async, LinkFolderRecursivelyAsync, without_key, unlisted,
  without_contents, with_contents,
}

module _ (t : Texts) (c : Ciphers) (u : Uuids) {W : Type 0} (io : LinkIo u W)
    (accepted : W → List (DirLinkAddRequestPayload u)) (lawful : IsLinkIo io accepted)
    (ciphers : IsCiphers c) (api_key : Bytes) where
  list_to_link_async-keeps :
      (n : ℕ) (folder_uuid : u.Uuid)
      (r : Result (ResponsePayload (DownloadDirResponseData u)) (Failed t c u io api_key))
      (w w' : W)
      → list_to_link_async t c u io api_key n folder_uuid w ≡ returns (r, w')
      → accepted w' ≡ accepted w
  unfolding list_to_link_async
  list_to_link_async-keeps n folder_uuid r w w' h =
      let op = attempts n (asks u io.dir accepted lawful.download_dir_keeps api_key folder_uuid) in
      elim (context-cases download_dir_request_failed op r w w' h) [
        | inl (a, got, _) ↦
            attempts-keeps u io.dir accepted lawful.download_dir_keeps api_key folder_uuid n (ok a)
              w w' got
        | inr (e, got, _) ↦
            attempts-keeps u io.dir accepted lawful.download_dir_keeps api_key folder_uuid n (err e)
              w w' got
      ]

  -- The link that was generated is the one that is known to be.
  generated :
      (key : Bytes) (v v' : W) (link : LinkIdWithKey u)
      → generate t c u io api_key key v ≡ returns (ok link, v')
      → IsKeyed c key link × (accepted v' ≡ accepted v)
  generated key v v' link h =
      let (other, v_1, made, is_keyed, kept) =
        generate-total t c u io accepted lawful ciphers api_key key v in
      let same : other ≡ link = cc (made, h) in
      let stays : v_1 ≡ v' = cc (made, h) in (rw (← same) is_keyed, ap accepted (sym stays) ∙ kept)

  module _ (ids : IsUuids u) (json : IsJson t) (master_keys : List Bytes) (folder_uuid : u.Uuid)
      (link : LinkIdWithKey u) where
    abbrev Added : Item u → DirLinkAddRequestPayload u → Type 0
    Added = IsAdded t c u api_key master_keys folder_uuid link

    folders-Sends :
        Sends accepted Added inl
          (add_one_folder_async t c u io api_key master_keys folder_uuid link)
    unfolding add_one_folder_async add_folder_to_link_async dir_link_add_request
    folders-Sends d = forget-Adds accepted (Added (inl d)) _ (
        folder-Adds t c u io accepted lawful ids json ciphers api_key master_keys folder_uuid link
          d)

    files-Sends :
        Sends accepted Added inr (add_one_file_async t c u io api_key master_keys folder_uuid link)
    unfolding add_one_file_async add_file_to_link_async dir_link_add_request
    files-Sends d =
        forget-Adds accepted (Added (inr d)) _ (
          file-Adds t c u io accepted lawful ids json ciphers api_key master_keys folder_uuid link
            d)

-- Whatever `link_folder_recursively_async` results in: the servers have accepted nothing new and the
-- result is an error, or it has the folder's content and there is a link with a key of 32 bytes that the
-- last master key opens, which is the result if there is one, and the servers have accepted one addition
-- to that link for each of some folders of the content, in some order, and it fails, or one for each of
-- its folders, in some order, and after all of those one for each of its files, in some order: for all
-- files if it succeeds, and not for all if it fails. Each addition names the item and its parent, which
-- for the linked folder itself is the base, and the link's key opens its metadata to what the master
-- keys open the item's metadata to. Stated for a log of the accepted additions, identifiers, random
-- values, a JSON crate and ciphers that keep their promises.
pub LinkFolderRecursivelyAsync-InStages :
    (t : Texts) (c : Ciphers) (u : Uuids) {W : Type 0} (io : LinkIo u W)
    (accepted : W → List (DirLinkAddRequestPayload u)) (lawful : IsLinkIo io accepted)
    (ids : IsUuids u) (json : IsJson t) (ciphers : IsCiphers c) (api_key : Bytes)
    (master_keys : List Bytes) (folder_uuid : u.Uuid) (n : ℕ) (w w' : W)
    (r : Result (LinkIdWithKey u) (Failed t c u io api_key))
    → LinkFolderRecursivelyAsync t c u io api_key master_keys folder_uuid n w r w'
    → ((e : Failed t c u io api_key) × (r ≡ err e) × (accepted w' ≡ accepted w))
      ⊎ ((key : Bytes) × (response : ResponsePayload (DownloadDirResponseData u))
          × (contents : DownloadDirResponseData u) × (v : W) × (link : LinkIdWithKey u) × (get_last?
                master_keys
              ≡ some key)
          × (list_to_link_async t c u io api_key n folder_uuid w ≡ returns (ok response, v))
          × (data_ref_or_err response ≡ ok contents)
          × IsKeyed c key link
          × ((made : LinkIdWithKey u) → r ≡ ok made → made ≡ link)
          × (zs : List (DirLinkAddRequestPayload u)) × InStages
              (IsAdded t c u api_key master_keys folder_uuid link)
              (map inl contents.folders)
              (map inr contents.files)
              r
              zs
          × (accepted w' ≡ accepted w ++ zs))
LinkFolderRecursivelyAsync-InStages t c u io accepted lawful ids json ciphers api_key master_keys
      folder_uuid n w w' r (without_key last returned same) =
    inl (_, returned, ap accepted (sym same))
LinkFolderRecursivelyAsync-InStages t c u io accepted lawful ids json ciphers api_key master_keys
      folder_uuid n w w' r (unlisted key e last ran returned) =
    inl (
      e,
      returned,
      list_to_link_async-keeps t c u io accepted lawful ciphers api_key n folder_uuid (err e) w w'
          ran,
    )
LinkFolderRecursivelyAsync-InStages t c u io accepted lawful ids json ciphers api_key master_keys
      folder_uuid n w w' r (without_contents key response e last ran none_there returned) =
    inl (
      _,
      returned,
      list_to_link_async-keeps t c u io accepted lawful ciphers api_key n folder_uuid (ok response)
          w w' ran,
    )
LinkFolderRecursivelyAsync-InStages t c u io accepted lawful ids json ciphers api_key master_keys
      folder_uuid n w w' r
      (with_contents key response contents link v v' last ran found made joins) =
    let kept =
      list_to_link_async-keeps t c u io accepted lawful ciphers api_key n folder_uuid (ok response)
        w v ran in
    let (is_keyed, still) = generated t c u io accepted lawful ciphers api_key key v v' link made in
    let folders =
      folders-Sends t c u io accepted lawful ciphers api_key ids json master_keys folder_uuid
        link in
    let files =
      files-Sends t c u io accepted lawful ciphers api_key ids json master_keys folder_uuid link in
    let Added = IsAdded t c u api_key master_keys folder_uuid link in
    let (zs, staged, grew) =
      JoinsBoth-InStages accepted Added inl inr _ _ folders files n contents.folders contents.files
        link r v' w' joins in
    inr (
      key,
      response,
      contents,
      v,
      link,
      last,
      ran,
      found,
      is_keyed,
      JoinsBoth-ok accepted Added inl inr _ _ folders files n contents.folders contents.files link r
          v' w' joins,
      zs,
      staged,
      grew ∙ ap (λ ys. ys ++ zs) (still ∙ kept),
    )
