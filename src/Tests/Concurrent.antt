-- ===== src/Tests/Concurrent.antt =====
-- Sharing a folder with servers in memory, the asynchronous way.
use rust_filen.Base.{
  ℕ, ◌≡◌, ◌⊎◌, refl, List, [], ◌∷◌, ◌++◌, map, none, true, false, Result, ok, err, returns, inl,
  inr,
}
use rust_filen.Base.Text.{codes, eq_ignore_ascii_case}
use rust_filen.Base.Decimal.{parse_signed}
use rust_filen.Base.Effects.{Eff}
use rust_filen.Base.Utf8.{is_utf8}
use rust_filen.Backoff.Call.{attempts}
use rust_filen.Backoff.Tasks.{done, finishes, fails, succeeds, JoinsBoth}
use rust_filen.Backoff.Tasks.Stages.{InStages}
use rust_filen.Names.{as_parent_or_none}
use rust_filen.Api.{ResponsePayload, data_ref_or_err}
use rust_filen.Crypto.Aes.{decrypt_aes_openssl, generate_aes_key_and_iv, salt_and_message}
use rust_filen.Crypto.Metadata.{
  decrypt_metadata, decrypt_metadata_any_key, decrypt_metadata_str_any_key, read_metadata_version,
}
use rust_filen.Crypto.Rsa.{encrypt_rsa}
use rust_filen.Files.{decrypt_name_from_metadata, decrypt_file_metadata}
use rust_filen.Files.Shared.{to_metadata_rsa_string, encrypt_name_to_metadata_rsa}
use rust_filen.Folders.{FolderData, FileData, DownloadDirResponseData, download_dir_request}
use rust_filen.Share.{
  ShareRequestPayload, ShareError, cannot_share_file, from_file_data, from_file_properties,
  from_folder_name, from_folder_data,
}
use rust_filen.Share.Receiver.{IsShareOf}
use rust_filen.Share.Requests.{share_request}
use rust_filen.Share.Concurrent.{
  share_file_async, share_folder_async, share_one_folder_async, share_one_file_async, list_async,
  ShareFolderRecursivelyAsync, with_contents,
}
use rust_filen.Share.Concurrent.Order.{ShareFolderRecursivelyAsync-InStages}
use rust_filen.Tests.Instances.{plain_ciphers, plain_ciphers-IsCiphers, two_uuids}
use rust_filen.Tests.Folders.{
  json, json-IsJson, open_rsa, open_rsa-IsKeyPair, default_folder, photo_data, contents, response,
}
use rust_filen.Tests.Share.{World, server, server-IsShareIo, folder_share, file_share}

abbrev Failure : Type 0
Failure = ShareError two_uuids ℕ

abbrev one_folder : FolderData two_uuids → Eff World (Unit {0}) Failure
one_folder =
    share_one_folder_async json plain_ciphers open_rsa two_uuids server (codes "api") (codes "a@b")
      (codes "public") (codes "key" ∷ [])

abbrev one_file : FileData two_uuids → Eff World (Unit {0}) Failure
one_file =
    share_one_file_async json plain_ciphers open_rsa two_uuids server (codes "api") (codes "a@b")
      (codes "public") (codes "key" ∷ [])

folder_shared :
    one_folder default_folder ([], true ∷ false ∷ [])
    ≡ returns (ok tt, (folder_share ∷ [], false ∷ []))
unfolding share_one_folder_async share_folder_async share_request
folder_shared =
    unfold from_folder_data from_folder_name encrypt_name_to_metadata_rsa encrypt_rsa
      as_parent_or_none decrypt_name_from_metadata is_utf8 eq_ignore_ascii_case in
    refl

file_refused :
    one_file photo_data (folder_share ∷ [], false ∷ [])
    ≡ returns (err (cannot_share_file false none), (folder_share ∷ [], []))
unfolding share_one_file_async share_file_async share_request
file_refused =
    unfold from_file_data from_file_properties to_metadata_rsa_string encrypt_rsa
      decrypt_file_metadata decrypt_metadata_str_any_key decrypt_metadata_any_key decrypt_metadata
      read_metadata_version decrypt_aes_openssl generate_aes_key_and_iv salt_and_message is_utf8
      parse_signed in
    refl

file_shared :
    one_file photo_data (folder_share ∷ [], [])
    ≡ returns (ok tt, (folder_share ∷ file_share ∷ [], []))
unfolding share_one_file_async share_file_async share_request
file_shared =
    unfold from_file_data from_file_properties to_metadata_rsa_string encrypt_rsa
      decrypt_file_metadata decrypt_metadata_str_any_key decrypt_metadata_any_key decrypt_metadata
      read_metadata_version decrypt_aes_openssl generate_aes_key_and_iv salt_and_message is_utf8
      parse_signed in
    refl

-- The file's share is refused once, and tried again.
joined :
    JoinsBoth {B = Unit {0}} one_folder one_file 1 contents.folders contents.files tt
      ([], true ∷ false ∷ [])
      (ok tt)
      (folder_share ∷ file_share ∷ [], [])
joined =
    succeeds (tt ∷ []) (folder_share ∷ [], false ∷ []) (tt ∷ [])
      (finishes [] [] default_folder 1 tt (folder_share ∷ [], false ∷ []) refl folder_shared
        (done (tt ∷ []) refl refl refl))
      (fails [] [] photo_data 0 (cannot_share_file false none) (folder_share ∷ [], []) refl
        file_refused
        (finishes [] [] photo_data 0 tt (folder_share ∷ file_share ∷ [], []) refl file_shared
          (done (tt ∷ []) refl refl refl)))
      refl

shared :
    ShareFolderRecursivelyAsync json plain_ciphers open_rsa two_uuids server
      (codes "api")
      (codes "a@b")
      (codes "public")
      (codes "key" ∷ [])
      1
      true
      ([], true ∷ false ∷ [])
      (ok tt)
      (folder_share ∷ file_share ∷ [], [])
unfolding list_async download_dir_request data_ref_or_err attempts
shared = with_contents response contents ([], true ∷ false ∷ []) refl refl joined

abbrev succeeded : Result (Unit {0}) Failure
succeeded = ok tt

ShareFolderRecursivelyAsync-InStages_example :
    ((e : Failure) × (succeeded ≡ err e) × (folder_share ∷ file_share ∷ [] ≡ []))
    ⊎ ((answer : ResponsePayload (DownloadDirResponseData two_uuids))
        × (found : DownloadDirResponseData two_uuids) × (v : World) × (list_async json plain_ciphers
              open_rsa two_uuids server
              (codes "api")
              1
              true
              ([], true ∷ false ∷ [])
            ≡ returns (ok answer, v))
        × (data_ref_or_err answer ≡ ok found)
        × (zs : List (ShareRequestPayload two_uuids)) × InStages {B = Unit {0}} {E = Failure}
            (IsShareOf json plain_ciphers open_rsa two_uuids
              (codes "api")
              (codes "a@b")
              (codes "private")
              (codes "key" ∷ []))
            (map inl found.folders)
            (map inr found.files)
            (ok tt)
            zs
        × (folder_share ∷ file_share ∷ [] ≡ [] ++ zs))
ShareFolderRecursivelyAsync-InStages_example =
    ShareFolderRecursivelyAsync-InStages json plain_ciphers open_rsa two_uuids server (λ w. w.0)
      server-IsShareIo (codes "api") json-IsJson plain_ciphers-IsCiphers open_rsa-IsKeyPair
      (codes "a@b") (codes "key" ∷ []) 1 true ([], true ∷ false ∷ [])
      (folder_share ∷ file_share ∷ [], []) (ok tt) shared
