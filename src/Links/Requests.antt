-- ===== src/Links/Requests.antt =====
-- The requests that add a file, a folder, and a folder with all that it holds to a link:
-- `add_file_to_link`, `add_folder_to_link`, `link_folder_recursively` and `LinkIdWithKey::generate` of
-- src/v1/links.rs.
use rust_filen.Base.{
  Option, some, none, List, Result, ok, err, Outcome, returns, panics, map_err, if◌then◌else◌,
  get_last?,
}
use rust_filen.Base.Text.{Bytes}
use rust_filen.Base.Effects.{Eff, ◌>>=◌, lift, context, traverse}
use rust_filen.Backoff.{RetrySettings, Retry, call}
use rust_filen.Names.{Uuids, ParentOrBase, base, folder}
use rust_filen.Api.{PlainResponsePayload, data_ref_or_err}
use rust_filen.Api.Accepted.{by_status, message_or_default}
use rust_filen.Crypto.Primitives.{Ciphers, CryptoError}
use rust_filen.Crypto.Metadata.{Draws, encrypt_metadata_str}
use rust_filen.Files.{Texts, metadata_version}
use rust_filen.Folders.{
  FolderData, FileData, HasUuid, HasFileMetadata, HasLocationName, download_dir_request,
  folder_data_uuid, file_data_uuid, folder_data_name, file_data_metadata,
}
use rust_filen.Links.{
  DirLinkAddRequestPayload, LinkIdWithKey, LinkIo, DirLinkError, LinkError, bad_argument,
  cannot_enable_file_link, cannot_enable_folder_link, cannot_get_user_folder_contents,
  dir_link_add_request_payload_creation_failed, dir_link_add_query_failed,
  download_dir_request_failed, from_file_data, from_folder_data,
}

-- The parent that a folder has in the link: none for the linked folder itself.
abbrev pub linked_parent : (u : Uuids) → u.Uuid → FolderData u → ParentOrBase u
linked_parent u folder_uuid d = if u.eq d.uuid folder_uuid then base else d.parent

module _ (t : Texts) (c : Ciphers) (u : Uuids) {W : Type 0} (io : LinkIo u W)
    (api_key : Bytes) where
  abbrev pub Failure : Type 0
  Failure = LinkError io.dir.QueryError

  -- `LinkIdWithKey::generate_unencrypted`
  unfoldable pub generate_unencrypted : W → (u.Uuid × Bytes) × W
  generate_unencrypted w =
      let (link_uuid, w_1) = io.new_v4 w in
      let (link_key, w_2) = io.random_alphanumeric_string 32 w_1 in ((link_uuid, link_key), w_2)

  -- `encrypt_metadata_str(…).unwrap()`, and what it is wrapped in.
  abbrev pub keyed :
      u.Uuid → Result Bytes CryptoError → W → Outcome (Result (LinkIdWithKey u) Failure × W)
  keyed link_uuid (err e) w = panics
  keyed link_uuid (ok metadata) w =
      returns (ok (record { link_key_metadata = metadata; link_uuid = link_uuid }), w)

  -- `LinkIdWithKey::generate`
  unfoldable pub generate : Bytes → Eff W (LinkIdWithKey u) Failure
  unfolding generate_unencrypted
  generate last_master_key w =
      let ((link_uuid, link_key), w_1) = generate_unencrypted w in
      let (draws, w_2) = io.draw w_1 in
      keyed link_uuid (encrypt_metadata_str c link_key last_master_key metadata_version draws) w_2

  -- `dir_link_add_request`, with the context that its callers give.
  unfoldable pub dir_link_add_request :
      DirLinkAddRequestPayload u → Eff W PlainResponsePayload Failure
  dir_link_add_request payload =
      context (λ e. dir_link_add_query_failed (DirLinkError.dir_link_add_query_failed e))
        (io.dir_link_add payload)

  -- What a payload's outcome is to a call.
  abbrev pub outcome_of :
      Outcome (Result (DirLinkAddRequestPayload u) (DirLinkError io.dir.QueryError))
      → W
      → Outcome (Result (DirLinkAddRequestPayload u) Failure × W)
  outcome_of panics w = panics
  outcome_of (returns r) w = returns (map_err dir_link_add_request_payload_creation_failed r, w)

  -- A payload that is made with drawn random bytes.
  unfoldable pub with_draws :
      (Draws → Outcome (Result (DirLinkAddRequestPayload u) (DirLinkError io.dir.QueryError)))
      → Eff W (DirLinkAddRequestPayload u) Failure
  with_draws make w = let (draws, w') = io.draw w in outcome_of (make draws) w'

  module _ {T : Type 0} ⦃id : HasUuid u T⦄ (parent_folder : ParentOrBase u) (link_uuid : u.Uuid)
      (link_key_metadata : Bytes) (master_keys : List Bytes) where
    unfoldable pub add_file_to_link : ⦃m : HasFileMetadata T⦄ → T → Eff W Bytes Failure
    add_file_to_link file_data = do
      dir_link_add_payload ← with_draws (λ draws.
          from_file_data t c u api_key parent_folder link_uuid link_key_metadata master_keys draws
            file_data)
      dir_link_add_response ← dir_link_add_request dir_link_add_payload
      lift (
          by_status message_or_default (λ r. cannot_enable_file_link (message_or_default r))
            dir_link_add_response)

    unfoldable pub add_folder_to_link : ⦃n : HasLocationName T⦄ → T → Eff W Bytes Failure
    add_folder_to_link folder_data = do
      dir_link_add_payload ← with_draws (λ draws.
          from_folder_data t c u api_key parent_folder link_uuid link_key_metadata master_keys draws
            folder_data)
      dir_link_add_response ← dir_link_add_request dir_link_add_payload
      lift (
          by_status message_or_default (λ r. cannot_enable_folder_link (message_or_default r))
            dir_link_add_response)

  module _ (master_keys : List Bytes) (folder_uuid : u.Uuid) where
    -- One folder and one file of `link_folder_recursively`, whose message is dropped.
    unfoldable pub add_one_folder : LinkIdWithKey u → FolderData u → Eff W (Unit {0}) Failure
    add_one_folder link d =
        add_folder_to_link (linked_parent u folder_uuid d) link.link_uuid link.link_key_metadata
          master_keys d
        >>= λ _. lift (ok tt)

    unfoldable pub add_one_file : LinkIdWithKey u → FileData u → Eff W (Unit {0}) Failure
    add_one_file link d =
        add_file_to_link (folder d.parent) link.link_uuid link.link_key_metadata master_keys d
        >>= λ _. lift (ok tt)

    -- `master_keys.last()`, or an error.
    abbrev pub last_master_key : Option Bytes → Result Bytes Failure
    last_master_key none = err (bad_argument "master keys cannot be empty")
    last_master_key (some key) = ok key

    unfoldable pub link_folder_recursively :
        Retry W → RetrySettings → Eff W (LinkIdWithKey u) Failure
    link_folder_recursively retry settings = do
      key ← lift (last_master_key (get_last? master_keys))
      contents_response ← context download_dir_request_failed (
          call retry settings
            (download_dir_request u io.dir (record { api_key = api_key; uuid = folder_uuid })))
      contents ← lift (map_err cannot_get_user_folder_contents (data_ref_or_err contents_response))
      link_id_with_key ← generate key
      added_folders ←
          traverse (λ d. call retry settings (add_one_folder link_id_with_key d)) contents.folders
      added_files ←
          traverse (λ d. call retry settings (add_one_file link_id_with_key d)) contents.files
      lift (ok link_id_with_key)
