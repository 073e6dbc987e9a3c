-- ===== src/Share/Receiver.antt =====
-- What one share of src/v1/share.rs leaves with the servers, and what its receiver reads.
use rust_filen.Base.{◌≡◌, refl, List, Result, ok, err, map_err-ok, inl, inr}
use rust_filen.Base.Text.{Bytes}
use rust_filen.Base.Fallible.{◌>>=◌}
use rust_filen.Names.{Uuids, parent, as_parent_or_none}
use rust_filen.Api.Accepted.{IsLogged}
use rust_filen.Crypto.Primitives.{Ciphers, IsCiphers}
use rust_filen.Crypto.Rsa.{Rsa, IsKeyPair}
use rust_filen.Files.{FileProperties, Texts, decrypt_file_metadata, decrypt_name_from_metadata}
use rust_filen.Files.Json.{IsJson, name-WritesName, file-WritesFile}
use rust_filen.Files.Shared.{
  decrypt_file_metadata_rsa, decrypt_name_from_metadata_rsa,
  decrypt_file_metadata_rsa-to_metadata_rsa_string,
  decrypt_name_from_metadata_rsa-encrypt_name_to_metadata_rsa,
}
use rust_filen.Folders.{
  FolderData, FileData, folder_data_uuid, folder_data_name, file_data_uuid, file_data_metadata,
}
use rust_filen.Folders.Listing.{Item, Keeping}
use rust_filen.Share.{
  ShareTarget, ShareRequestPayload, ShareIo, from_file_properties, from_folder_name,
  from_folder_data, from_file_data,
}

-- The shares that the servers said they accepted, which nothing else adds to.
pub record IsShareIo {u : Uuids} {W : Type 0} (io : ShareIo u W)
    (accepted : W → List (ShareRequestPayload u)) : Type 1 where
  pub shares : IsLogged io.share accepted
  pub download_dir_keeps : Keeping io.dir accepted
  pub draw_keeps : (w : W) → accepted (io.draw_seed w).1 ≡ accepted w

module _ (t : Texts) (c : Ciphers) (rsa : Rsa) (u : Uuids)
    (api_key receiver_email private_key : Bytes) (master_keys : List Bytes) where
  -- The share of an item: it names the item and its parent, and with the receiver's private key its
  -- metadata gives what the item's metadata gives with the master keys.
  abbrev pub IsShareOf : Item u → ShareRequestPayload u → Type 0
  IsShareOf (inl folder) payload =
      (payload.api_key ≡ api_key)
      × (payload.email ≡ receiver_email)
      × (payload.parent ≡ as_parent_or_none u folder.parent)
      × (payload.share_type ≡ ShareTarget.folder)
      × (payload.uuid ≡ folder.uuid)
      × ((name : Bytes) × (decrypt_name_from_metadata t c folder.name_metadata master_keys
            ≡ ok name)
          × (decrypt_name_from_metadata_rsa t c rsa payload.metadata private_key ≡ ok name))
  IsShareOf (inr file) payload =
      (payload.api_key ≡ api_key)
      × (payload.email ≡ receiver_email)
      × (payload.parent ≡ parent file.parent)
      × (payload.share_type ≡ ShareTarget.file)
      × (payload.uuid ≡ file.uuid)
      × ((p : FileProperties) × (decrypt_file_metadata t c file.metadata master_keys ≡ ok p)
          × (decrypt_file_metadata_rsa t c rsa payload.metadata private_key ≡ ok p))

bind-inv :
    {A B E : Type 0} (r : Result A E) (f : A → Result B E) (b : B)
    → (r >>= f) ≡ ok b
    → (a : A) × (r ≡ ok a) × (f a ≡ ok b)
bind-inv (ok a) f b h = (a, refl, h)
bind-inv (err e) f b h = absurd (cc h)

module _ (t : Texts) (c : Ciphers) (rsa : Rsa) (u : Uuids) (json : IsJson t) (lawful : IsCiphers c)
    {public_key private_key : Bytes} (pair : IsKeyPair rsa public_key private_key)
    (api_key receiver_email : Bytes) (master_keys : List Bytes) where
  -- A payload made of a folder's data is a share of the folder.
  pub from_folder_data-IsShareOf :
      {E : Type 0} (folder : FolderData u) (seed : Bytes) (payload : ShareRequestPayload u)
      → from_folder_data t c rsa u api_key {E = E}
          (as_parent_or_none u folder.parent)
          receiver_email
          public_key
          master_keys
          seed
          folder
        ≡ ok payload
      → IsShareOf t c rsa u api_key receiver_email private_key master_keys (inl folder) payload
  unfolding from_folder_data from_folder_name
  from_folder_data-IsShareOf folder seed payload h =
      let (name, named, h_1) = bind-inv _ _ payload h in
      let opened =
        map_err-ok _ (decrypt_name_from_metadata t c folder.name_metadata master_keys) name named in
      let (metadata, made, h_2) = bind-inv _ _ payload (map_err-ok _ _ payload h_1) in
      let reads = name-WritesName t c json folder.name_metadata name master_keys opened in
      let received =
        decrypt_name_from_metadata_rsa-encrypt_name_to_metadata_rsa t c rsa lawful pair name seed
          metadata reads.reads_back made in
      (cc h_2, cc h_2, cc h_2, cc h_2, cc h_2, (name, opened, cc (h_2, received)))

  -- A payload made of the properties that a file's metadata gives is a share of the file.
  pub from_file_properties-IsShareOf :
      (file : FileData u) (p : FileProperties) (seed : Bytes) (payload : ShareRequestPayload u)
      → decrypt_file_metadata t c file.metadata master_keys ≡ ok p
      → from_file_properties t c rsa u api_key file.uuid p
          (parent file.parent)
          receiver_email
          public_key
          seed
        ≡ ok payload
      → IsShareOf t c rsa u api_key receiver_email private_key master_keys (inr file) payload
  unfolding from_file_properties
  from_file_properties-IsShareOf file p seed payload opened h =
      let (metadata, made, h_1) = bind-inv _ _ payload h in
      let reads = file-WritesFile t c json file.metadata p master_keys opened in
      let received =
        decrypt_file_metadata_rsa-to_metadata_rsa_string t c rsa lawful pair p seed metadata
          reads.reads_back made in
      (cc h_1, cc h_1, cc h_1, cc h_1, cc h_1, (p, opened, cc (h_1, received)))

  -- A payload made of a file's data is a share of the file.
  pub from_file_data-IsShareOf :
      {E : Type 0} (file : FileData u) (seed : Bytes) (payload : ShareRequestPayload u)
      → from_file_data t c rsa u api_key {E = E}
          (parent file.parent)
          receiver_email
          public_key
          master_keys
          seed
          file
        ≡ ok payload
      → IsShareOf t c rsa u api_key receiver_email private_key master_keys (inr file) payload
  unfolding from_file_data
  from_file_data-IsShareOf file seed payload h =
      let (p, read, h_1) = bind-inv _ _ payload h in
      from_file_properties-IsShareOf file p seed payload (map_err-ok _ _ p read)
        (map_err-ok _ _ payload h_1)
