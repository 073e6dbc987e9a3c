-- ===== src/Share/Accepted.antt =====
-- One share of src/v1/share.rs that succeeds is one that the servers accepted, and one that fails is none.
use rust_filen.Base.{
  ◌≡◌, sym, ap, ◌∙◌, List, Option, Result, ok, err, returns, map_err, map_err-ok, inl, inr,
}
use rust_filen.Base.Text.{Bytes}
use rust_filen.Base.Effects.{◌>>=◌}
use rust_filen.Backoff.Progress.{Sends}
use rust_filen.Names.{Uuids, parent, as_parent_or_none}
use rust_filen.Api.Accepted.{
  message_or_default, Adds, send, make_and_send-Adds, forget-Adds, lift-Adds,
}
use rust_filen.Crypto.Primitives.{Ciphers, IsCiphers}
use rust_filen.Crypto.Rsa.{Rsa, IsKeyPair}
use rust_filen.Files.{Texts, FilesError, decrypt_file_metadata}
use rust_filen.Files.Json.{IsJson}
use rust_filen.Folders.{
  FolderData, FileData, folder_data_uuid, file_data_uuid, folder_data_name, file_data_metadata,
}
use rust_filen.Folders.Listing.{Item}
use rust_filen.Share.{
  ShareRequestPayload, ShareIo, cannot_share_file, cannot_share_folder, share_query_failed,
  decrypt_file_metadata_failed, encrypt_file_metadata_rsa_failed, from_file_properties,
  from_folder_data,
}
use rust_filen.Share.Requests.{
  Failure, share_request, with_seed, share_file, share_folder, share_one_file, share_one_folder,
}
use rust_filen.Share.Receiver.{
  IsShareIo, IsShareOf, from_folder_data-IsShareOf, from_file_properties-IsShareOf,
}

module _ (t : Texts) (c : Ciphers) (rsa : Rsa) (u : Uuids) {W : Type 0} (io : ShareIo u W)
    (accepted : W → List (ShareRequestPayload u)) (lawful : IsShareIo io accepted)
    (api_key : Bytes) where
  abbrev Failed : Type 0
  Failed = Failure t c rsa u io api_key

  drawn :
      {A : Type 0} (make : Bytes → Result A Failed) (r : Result A Failed) (w w' : W)
      → with_seed t c rsa u io api_key make w ≡ returns (r, w')
      → (accepted w' ≡ accepted w) × (r ≡ make (io.draw_seed w).0)
  drawn make r w w' h =
      let moved : (io.draw_seed w).1 ≡ w' = cc h in
      (ap accepted (sym moved) ∙ lawful.draw_keeps w, cc h)

  module _ (json : IsJson t) (ciphers : IsCiphers c) {public_key private_key : Bytes}
      (pair : IsKeyPair rsa public_key private_key) (receiver_email : Bytes)
      (master_keys : List Bytes) where
    abbrev IsShared : Item u → ShareRequestPayload u → Type 0
    IsShared = IsShareOf t c rsa u api_key receiver_email private_key master_keys

    -- A payload that is made with a seed and then sent.
    pub seeded-Adds :
        (item : Item u) (refused : Option Bytes → Failed)
        (make : Bytes → Result (ShareRequestPayload u) Failed)
        → ((seed : Bytes) (x : ShareRequestPayload u) → make seed ≡ ok x → IsShared item x)
        → Adds accepted (IsShared item) (
            with_seed t c rsa u io api_key make
            >>= send accepted io.share lawful.shares share_query_failed message_or_default
                (λ r. refused r.message))
    seeded-Adds item refused make makes =
        make_and_send-Adds accepted io.share lawful.shares share_query_failed message_or_default
          (λ r. refused r.message) (IsShared item) (with_seed t c rsa u io api_key make)
          (λ w w'. (
            λ x h.
                let (kept, same) = drawn make (ok x) w w' h in
                (makes (io.draw_seed w).0 x (sym same), kept),
            λ e h. (drawn make (err e) w w' h).0,
          ))

    share_folder-Adds :
        (folder : FolderData u)
        → Adds accepted (IsShared (inl folder)) (
            share_folder t c rsa u io api_key
              (as_parent_or_none u folder.parent)
              receiver_email
              public_key
              master_keys
              folder)
    unfolding share_folder share_request
    share_folder-Adds folder =
        seeded-Adds (inl folder) (cannot_share_folder folder.uuid)
          (λ seed.
            from_folder_data t c rsa u api_key (as_parent_or_none u folder.parent) receiver_email
              public_key master_keys seed folder)
          (from_folder_data-IsShareOf t c rsa u json ciphers pair api_key receiver_email master_keys
            folder)

    share_file-Adds :
        (file : FileData u)
        → Adds accepted (IsShared (inr file)) (
            share_file t c rsa u io api_key
              (parent file.parent)
              receiver_email
              public_key
              master_keys
              file)
    unfolding share_file share_request
    share_file-Adds file =
        let read = decrypt_file_metadata t c file.metadata master_keys in
        let wrap : FilesError → Failed = decrypt_file_metadata_failed file.metadata in
        let rewrap : FilesError → Failed = encrypt_file_metadata_rsa_failed file.metadata in
        lift-Adds accepted (IsShared (inr file)) (map_err wrap read) _ (λ p opened.
          seeded-Adds (inr file) (cannot_share_file file.uuid)
            (λ seed. map_err rewrap (
              from_file_properties t c rsa u api_key file.uuid p (parent file.parent) receiver_email
                public_key seed))
            (λ seed x h.
              from_file_properties-IsShareOf t c rsa u json ciphers pair api_key receiver_email
                master_keys file p seed x (map_err-ok wrap read p opened)
                (map_err-ok rewrap _ x h)))

    pub share_one_folder-Sends :
        Sends accepted IsShared inl
          (share_one_folder t c rsa u io api_key receiver_email public_key master_keys)
    unfolding share_one_folder
    share_one_folder-Sends folder =
        forget-Adds accepted (IsShared (inl folder)) _ (share_folder-Adds folder)

    pub share_one_file-Sends :
        Sends accepted IsShared inr
          (share_one_file t c rsa u io api_key receiver_email public_key master_keys)
    unfolding share_one_file
    share_one_file-Sends file = forget-Adds accepted (IsShared (inr file)) _ (share_file-Adds file)
