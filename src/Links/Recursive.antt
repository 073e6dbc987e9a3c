-- ===== src/Links/Recursive.antt =====
-- `link_folder_recursively` of src/v1/links.rs: the link that it makes, and the items that it adds to it.
use rust_filen.Base.{
  ◌<◌, ◌≡◌, ◌≢◌, refl, sym, ap, ◌∙◌, List, [], ◌∷◌, ◌++◌, some, Result, ok, err, returns, inl, inr,
  length, get_last?, arith, All-imp,
}
use rust_filen.Base.Text.{Bytes}
use rust_filen.Base.Utf8.{IsAscii-is_utf8}
use rust_filen.Base.Effects.{Eff}
use rust_filen.Backoff.{RetrySettings, Retry, call}
use rust_filen.Backoff.Call.{IsRetry}
use rust_filen.Backoff.Progress.{Sends, call-Sends}
use rust_filen.Backoff.Stages.{Left, stages, stages-Left, stages-ok}
use rust_filen.Names.{Uuids, IsUuids}
use rust_filen.Api.{ResponsePayload, data_ref_or_err}
use rust_filen.Crypto.Primitives.{Ciphers, IsCiphers, openssl_salt_prefix_base64}
use rust_filen.Crypto.Metadata.{decrypt_metadata_str_any_key}
use rust_filen.Crypto.Metadata.Marked.{encrypt_metadata_str-marked}
use rust_filen.Files.{Texts}
use rust_filen.Files.Json.{IsJson}
use rust_filen.Folders.{FolderData, FileData, DownloadDirResponseData}
use rust_filen.Folders.Listing.{Item, items, listing, listing-keeps}
use rust_filen.Links.{DirLinkAddRequestPayload, LinkIdWithKey, LinkIo}
use rust_filen.Links.Requests.{
  Failure, keyed, generate, add_one_folder, add_one_file, link_folder_recursively,
}
use rust_filen.Links.Added.{IsAdded}
use rust_filen.Links.Accepted.{IsLinkIo, add_one_folder-Sends, add_one_file-Sends}

-- A link whose key is a text of 32 bytes that the given master key opens.
abbrev pub IsKeyed : (c : Ciphers) {u : Uuids} → Bytes → LinkIdWithKey u → Type 0
IsKeyed c key link =
    (link_key : Bytes) × (length link_key ≡ 32)
    × (decrypt_metadata_str_any_key c link.link_key_metadata (key ∷ []) ≡ ok link_key)

module _ (t : Texts) (c : Ciphers) (u : Uuids) {W : Type 0} (io : LinkIo u W)
    (accepted : W → List (DirLinkAddRequestPayload u)) (lawful : IsLinkIo io accepted)
    (ciphers : IsCiphers c) (api_key : Bytes) where
  -- Making a link does not panic or fail, and adds nothing.
  pub generate-total :
      (key : Bytes) (w : W)
      → (link : LinkIdWithKey u) × (w' : W) × (generate t c u io api_key key w
          ≡ returns (ok link, w'))
        × IsKeyed c key link
        × (accepted w' ≡ accepted w)
  unfolding generate
  generate-total key w =
      let (link_uuid, w_1) = io.new_v4 w in
      let (link_key, w_2) = io.random_alphanumeric_string 32 w_1 in
      let (draws, w_3) = io.draw w_2 in
      let ascii = lawful.random-IsAscii 32 w_1 in
      let len = lawful.length-random 32 w_1 in
      let full : link_key ≢ [] = λ none. omega (arith, len, ap length none) in
      let bytes = All-imp (λ b. b < 128) (λ b. b < 256) link_key (λ b small. omega arith) ascii in
      let (rest, made, plain) =
        encrypt_metadata_str-marked c ciphers key draws (lawful.draw-IsDrawn w_2) link_key full
          bytes (IsAscii-is_utf8 link_key ascii) in
      let link : LinkIdWithKey u = record {
        link_key_metadata = openssl_salt_prefix_base64 ++ rest;
        link_uuid = link_uuid;
      } in
      (
        link,
        w_3,
        rw (made, keyed) refl,
        (link_key, len, plain []),
        lawful.draw_keeps w_2 ∙ lawful.random_keeps 32 w_1 ∙ lawful.new_v4_keeps w,
      )

module _ (t : Texts) (c : Ciphers) (u : Uuids) {W : Type 0} (io : LinkIo u W)
    (accepted : W → List (DirLinkAddRequestPayload u)) (lawful : IsLinkIo io accepted)
    (ids : IsUuids u) (json : IsJson t) (ciphers : IsCiphers c) (api_key : Bytes)
    (master_keys : List Bytes) (retry : Retry W) (retries : IsRetry retry)
    (settings : RetrySettings) (folder_uuid : u.Uuid) (link : LinkIdWithKey u)
    (contents : DownloadDirResponseData u) where
  abbrev Failed : Type 0
  Failed = Failure t c u io api_key

  abbrev Added : Item u → DirLinkAddRequestPayload u → Type 0
  Added = IsAdded t c u api_key master_keys folder_uuid link

  abbrev one_folder : FolderData u → Eff W (Unit {0}) Failed
  one_folder d =
      call retry settings (add_one_folder t c u io api_key master_keys folder_uuid link d)

  abbrev one_file : FileData u → Eff W (Unit {0}) Failed
  one_file d = call retry settings (add_one_file t c u io api_key master_keys folder_uuid link d)

  folders-Sends : Sends accepted Added inl one_folder
  folders-Sends =
      call-Sends accepted Added inl retry retries settings
        (add_one_folder t c u io api_key master_keys folder_uuid link)
        (add_one_folder-Sends t c u io accepted lawful ids json ciphers api_key master_keys
          folder_uuid link)

  files-Sends : Sends accepted Added inr one_file
  files-Sends =
      call-Sends accepted Added inr retry retries settings
        (add_one_file t c u io api_key master_keys folder_uuid link)
        (add_one_file-Sends t c u io accepted lawful ids json ciphers api_key master_keys
          folder_uuid link)

  added-Left :
      (r : Result (LinkIdWithKey u) Failed) (w w' : W)
      → stages accepted Added inl inr one_folder one_file folders-Sends files-Sends contents.folders
          contents.files link w
        ≡ returns (r, w')
      → (xs : List (DirLinkAddRequestPayload u)) × Left Added (items u contents) r xs
        × (accepted w' ≡ accepted w ++ xs)
  added-Left =
      stages-Left accepted Added inl inr one_folder one_file folders-Sends files-Sends
        contents.folders contents.files link

  made-link :
      (r : Result (LinkIdWithKey u) Failed) (w w' : W)
      → stages accepted Added inl inr one_folder one_file folders-Sends files-Sends contents.folders
          contents.files link w
        ≡ returns (r, w')
      → (made : LinkIdWithKey u) → r ≡ ok made
      → made ≡ link
  made-link (ok a) w w' h made e =
      let same : a ≡ made = cc e in
      sym same
      ∙ stages-ok accepted Added inl inr one_folder one_file folders-Sends files-Sends
          contents.folders contents.files link a w w' h
  made-link (err x) w w' h made e = absurd (cc e)

-- Whatever linking a folder with all that it holds results in, once its content is known: there is a link
-- with a key of 32 bytes that the last master key opens, which is the result if there is one; the servers
-- have accepted, besides what they had accepted before, one addition to that link for each folder and
-- then for each file of the content, in that order, all of them if it succeeds, and otherwise those before
-- an item that is left out. Each addition names the item and its parent, which for the
-- linked folder itself is the base, and the link's key opens its metadata to what the master keys
-- open the item's metadata to. Stated for a log of the accepted additions, random values, a
-- JSON crate, ciphers and a retry crate that keep their promises.
pub link_folder_recursively-Left :
    (t : Texts) (c : Ciphers) (u : Uuids) {W : Type 0} (io : LinkIo u W)
    (accepted : W → List (DirLinkAddRequestPayload u)) (lawful : IsLinkIo io accepted)
    (ids : IsUuids u) (json : IsJson t) (ciphers : IsCiphers c) (api_key : Bytes)
    (master_keys : List Bytes) (retry : Retry W) (retries : IsRetry retry)
    (settings : RetrySettings) (folder_uuid : u.Uuid) (key : Bytes)
    (response : ResponsePayload (DownloadDirResponseData u)) (contents : DownloadDirResponseData u)
    (w v w' : W) (r : Result (LinkIdWithKey u) (Failure t c u io api_key))
    → get_last? master_keys ≡ some key
    → listing u io.dir retry settings api_key folder_uuid w ≡ returns (ok response, v)
    → data_ref_or_err response ≡ ok contents
    → link_folder_recursively t c u io api_key master_keys folder_uuid retry settings w
      ≡ returns (r, w')
    → (link : LinkIdWithKey u) × (xs : List (DirLinkAddRequestPayload u)) × IsKeyed c key link
      × ((made : LinkIdWithKey u) → r ≡ ok made → made ≡ link)
      × Left (IsAdded t c u api_key master_keys folder_uuid link) (items u contents) r xs
      × (accepted w' ≡ accepted w ++ xs)
unfolding link_folder_recursively
link_folder_recursively-Left t c u io accepted lawful ids json ciphers api_key master_keys retry
      retries settings folder_uuid key response contents w v w' r last listed found h =
    let kept =
      listing-keeps u io.dir accepted lawful.download_dir_keeps api_key folder_uuid retry retries
        settings response w v listed in
    let (link, v_1, made, is_keyed, still) =
      generate-total t c u io accepted lawful ciphers api_key key v in
    let h' = rw (last, listed, found, made) at h in
    let (xs, left, grew) =
      added-Left t c u io accepted lawful ids json ciphers api_key master_keys retry retries
        settings folder_uuid link contents r v_1 w' h' in
    (
      link,
      xs,
      is_keyed,
      made-link t c u io accepted lawful ids json ciphers api_key master_keys retry retries settings
          folder_uuid link contents r v_1 w' h',
      left,
      grew ∙ ap (λ ys. ys ++ xs) (still ∙ kept),
    )
