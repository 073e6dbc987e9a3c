-- ===== src/Tests/ConcurrentLinks.antt =====
-- A link to a folder with servers in memory, the asynchronous way.
use rust_filen.Base.{
  ℕ, ◌≡◌, ◌⊎◌, refl, List, [], ◌∷◌, ◌++◌, map, some, true, false, Result, ok, err, returns, inl,
  inr, get_last?,
}
use rust_filen.Base.Text.{Bytes, codes, eq_ignore_ascii_case}
use rust_filen.Base.Decimal.{parse_signed}
use rust_filen.Base.Effects.{Eff}
use rust_filen.Base.Utf8.{is_utf8}
use rust_filen.Backoff.Call.{attempts}
use rust_filen.Backoff.Tasks.{done, finishes, fails, succeeds, JoinsBoth}
use rust_filen.Backoff.Tasks.Stages.{InStages}
use rust_filen.Api.{ResponsePayload, data_ref_or_err}
use rust_filen.Crypto.Aes.{
  decrypt_aes_openssl, encrypt_aes_openssl, generate_aes_key_and_iv, salt_and_message,
}
use rust_filen.Crypto.Metadata.{
  encrypt_metadata, encrypt_metadata_str, decrypt_metadata, decrypt_metadata_any_key,
  decrypt_metadata_str_any_key, read_metadata_version,
}
use rust_filen.Files.{
  hash_fn, encrypt_file_metadata, encrypt_name_to_metadata, decrypt_name_from_metadata,
  decrypt_file_metadata,
}
use rust_filen.Folders.{FolderData, FileData, DownloadDirResponseData, download_dir_request}
use rust_filen.Links.{
  DirLinkAddRequestPayload, LinkIdWithKey, LinkError, cannot_enable_folder_link,
  from_file_properties, from_folder_name, from_file_data, from_folder_data,
}
use rust_filen.Links.Requests.{generate, dir_link_add_request, with_draws}
use rust_filen.Links.Added.{IsAdded}
use rust_filen.Links.Recursive.{IsKeyed}
use rust_filen.Links.Concurrent.{
  add_file_to_link_async, add_folder_to_link_async, add_one_folder_async, add_one_file_async,
  list_to_link_async, LinkFolderRecursivelyAsync, with_contents,
}
use rust_filen.Links.Concurrent.Order.{LinkFolderRecursivelyAsync-InStages}
use rust_filen.Tests.Instances.{
  plain_ciphers, plain_ciphers-IsCiphers, two_uuids, two_uuids-IsUuids,
}
use rust_filen.Tests.Folders.{json, json-IsJson, default_folder, photo_data, contents, response}
use rust_filen.Tests.Links.{World, server, server-IsLinkIo, before, link, folder_added, file_added}

abbrev Failure : Type 0
Failure = LinkError ℕ

abbrev one_folder : FolderData two_uuids → Eff World (Unit {0}) Failure
one_folder =
    add_one_folder_async json plain_ciphers two_uuids server (codes "api") (codes "key" ∷ []) true
      link

abbrev one_file : FileData two_uuids → Eff World (Unit {0}) Failure
one_file =
    add_one_file_async json plain_ciphers two_uuids server (codes "api") (codes "key" ∷ []) true
      link

abbrev after_folder : World
after_folder = record (before []) { added = folder_added ∷ [] }

abbrev after_both : World
after_both = record (before []) { added = folder_added ∷ file_added ∷ [] }

folder_refused :
    one_folder default_folder (before (false ∷ []))
    ≡ returns (err (cannot_enable_folder_link []), before [])
unfolding add_one_folder_async add_folder_to_link_async dir_link_add_request with_draws
folder_refused =
    unfold from_folder_data from_folder_name encrypt_name_to_metadata hash_fn encrypt_metadata_str
      encrypt_metadata encrypt_aes_openssl decrypt_name_from_metadata decrypt_metadata_str_any_key
      decrypt_metadata_any_key decrypt_metadata read_metadata_version decrypt_aes_openssl
      generate_aes_key_and_iv salt_and_message is_utf8 eq_ignore_ascii_case parse_signed in
    refl

folder_added_later : one_folder default_folder (before []) ≡ returns (ok tt, after_folder)
unfolding add_one_folder_async add_folder_to_link_async dir_link_add_request with_draws
folder_added_later =
    unfold from_folder_data from_folder_name encrypt_name_to_metadata hash_fn encrypt_metadata_str
      encrypt_metadata encrypt_aes_openssl decrypt_name_from_metadata decrypt_metadata_str_any_key
      decrypt_metadata_any_key decrypt_metadata read_metadata_version decrypt_aes_openssl
      generate_aes_key_and_iv salt_and_message is_utf8 eq_ignore_ascii_case parse_signed in
    refl

file_added_later : one_file photo_data after_folder ≡ returns (ok tt, after_both)
unfolding add_one_file_async add_file_to_link_async dir_link_add_request with_draws
file_added_later =
    unfold from_file_data from_file_properties encrypt_file_metadata hash_fn encrypt_metadata_str
      encrypt_metadata encrypt_aes_openssl decrypt_file_metadata decrypt_metadata_str_any_key
      decrypt_metadata_any_key decrypt_metadata read_metadata_version decrypt_aes_openssl
      generate_aes_key_and_iv salt_and_message is_utf8 eq_ignore_ascii_case parse_signed in
    refl

-- The folder is refused once, and tried again.
joined :
    JoinsBoth one_folder one_file 1 contents.folders contents.files link
      (before (false ∷ []))
      (ok link)
      after_both
joined =
    succeeds (tt ∷ []) after_folder (tt ∷ [])
      (fails [] [] default_folder 0 (cannot_enable_folder_link []) (before []) refl folder_refused (
        finishes [] [] default_folder 0 tt after_folder refl folder_added_later
          (done (tt ∷ []) refl refl refl)))
      (finishes [] [] photo_data 1 tt after_both refl file_added_later
        (done (tt ∷ []) refl refl refl))
      refl

made_link :
    generate json plain_ciphers two_uuids server (codes "api") (codes "key") (before (false ∷ []))
    ≡ returns (ok link, before (false ∷ []))
unfolding generate
made_link =
    unfold is_utf8 encrypt_metadata_str encrypt_metadata encrypt_aes_openssl
      generate_aes_key_and_iv in
    refl

linked :
    LinkFolderRecursivelyAsync json plain_ciphers two_uuids server
      (codes "api")
      (codes "key" ∷ [])
      true
      1
      (before (false ∷ []))
      (ok link)
      after_both
unfolding list_to_link_async download_dir_request data_ref_or_err attempts
linked =
    with_contents (codes "key") response contents link (before (false ∷ [])) (before (false ∷ []))
      refl refl refl made_link joined

abbrev succeeded : Result (LinkIdWithKey two_uuids) Failure
succeeded = ok link

LinkFolderRecursivelyAsync-InStages_example :
    ((e : Failure) × (succeeded ≡ err e) × (folder_added ∷ file_added ∷ [] ≡ []))
    ⊎ ((key : Bytes) × (answer : ResponsePayload (DownloadDirResponseData two_uuids))
        × (found : DownloadDirResponseData two_uuids) × (v : World) × (l : LinkIdWithKey two_uuids)
        × (get_last? (codes "key" ∷ []) ≡ some key)
        × (list_to_link_async json plain_ciphers two_uuids server
              (codes "api")
              1
              true
              (before (false ∷ []))
            ≡ returns (ok answer, v))
        × (data_ref_or_err answer ≡ ok found)
        × IsKeyed plain_ciphers key l
        × ((made : LinkIdWithKey two_uuids) → succeeded ≡ ok made → made ≡ l)
        × (zs : List (DirLinkAddRequestPayload two_uuids)) × InStages
            (IsAdded json plain_ciphers two_uuids (codes "api") (codes "key" ∷ []) true l)
            (map inl found.folders)
            (map inr found.files)
            succeeded
            zs
        × (folder_added ∷ file_added ∷ [] ≡ [] ++ zs))
LinkFolderRecursivelyAsync-InStages_example =
    LinkFolderRecursivelyAsync-InStages json plain_ciphers two_uuids server (λ w. w.added)
      server-IsLinkIo two_uuids-IsUuids json-IsJson plain_ciphers-IsCiphers (codes "api")
      (codes "key" ∷ []) true 1 (before (false ∷ [])) after_both (ok link) linked
