-- ===== src/Links/Added.antt =====
-- What an item that is added to a link (src/v1/dir_links.rs) is to those who have the link's key.
use rust_filen.Base.{◌≡◌, ◌≢◌, Bool-cases, List, [], ◌∷◌, ok, returns, Result-cases, inl, inr}
use rust_filen.Base.Text.{Bytes, codes}
use rust_filen.Names.{IsUuids, base, Uuids, never, folder}
use rust_filen.Crypto.Primitives.{Ciphers, IsCiphers}
use rust_filen.Crypto.Metadata.{Draws, decrypt_metadata_str_any_key}
use rust_filen.Crypto.Metadata.RoundTrip.{IsDrawn}
use rust_filen.Files.{
  hash_fn, FileProperties, Texts, decrypt_file_metadata, decrypt_name_from_metadata,
}
use rust_filen.Files.Json.{IsJson, name-WritesName, file-WritesFile}
use rust_filen.Files.RoundTrip.{
  decrypt_file_metadata-encrypt_file_metadata, decrypt_name_from_metadata-encrypt_name_to_metadata,
}
use rust_filen.Folders.{
  FolderData, FileData, folder_data_uuid, file_data_uuid, folder_data_name, file_data_metadata,
}
use rust_filen.Folders.Listing.{Item}
use rust_filen.Links.{
  DownloadBtnState, empty, ItemKind, DirLinkAddRequestPayload, LinkIdWithKey, from_file_properties,
  from_folder_name, from_file_data, from_folder_data,
}
use rust_filen.Links.Requests.{linked_parent}

module _ (t : Texts) (c : Ciphers) (u : Uuids) (api_key : Bytes) (master_keys : List Bytes)
    (folder_uuid : u.Uuid) (link : LinkIdWithKey u) where
  -- A payload that adds something to the link, without a password and a limit in time.
  abbrev pub IsOpen : DirLinkAddRequestPayload u → Type 0
  IsOpen payload =
      (payload.api_key ≡ api_key)
      × (payload.download_btn ≡ DownloadBtnState.enable)
      × (payload.expiration ≡ never)
      × (payload.key_metadata ≡ link.link_key_metadata)
      × (payload.link_uuid ≡ link.link_uuid)
      × (payload.password ≡ empty)
      × (payload.password_hashed ≡ hash_fn t (codes "empty"))

  -- The payload that adds an item: it names the item and its parent in the link, and with the link's key,
  -- which the master keys open, its metadata gives what the item's metadata gives with the master keys.
  abbrev pub IsAdded : Item u → DirLinkAddRequestPayload u → Type 0
  IsAdded (inl d) payload =
      IsOpen payload
      × (d.uuid ≡ folder_uuid → payload.parent ≡ base)
      × (d.uuid ≢ folder_uuid → payload.parent ≡ d.parent)
      × (payload.link_type ≡ ItemKind.folder)
      × (payload.uuid ≡ d.uuid)
      × ((link_key : Bytes) × (name : Bytes) × (decrypt_metadata_str_any_key c
              link.link_key_metadata master_keys
            ≡ ok link_key)
          × (decrypt_name_from_metadata t c d.name_metadata master_keys ≡ ok name)
          × (decrypt_name_from_metadata t c payload.metadata (link_key ∷ []) ≡ ok name))
  IsAdded (inr d) payload =
      IsOpen payload
      × (payload.parent ≡ folder d.parent)
      × (payload.link_type ≡ ItemKind.file)
      × (payload.uuid ≡ d.uuid)
      × ((link_key : Bytes) × (p : FileProperties) × (decrypt_metadata_str_any_key c
              link.link_key_metadata master_keys
            ≡ ok link_key)
          × (decrypt_file_metadata t c d.metadata master_keys ≡ ok p)
          × (decrypt_file_metadata t c payload.metadata (link_key ∷ []) ≡ ok p))

  -- The linked folder itself has the base for its parent, any other folder its own.
  linked_parent-base :
      IsUuids u → (d : FolderData u) → d.uuid ≡ folder_uuid → linked_parent u folder_uuid d ≡ base
  linked_parent-base ids d same = let e = (ids.eq_iff d.uuid folder_uuid).1 same in rw e

  linked_parent-own :
      IsUuids u
      → (d : FolderData u) → d.uuid ≢ folder_uuid
      → linked_parent u folder_uuid d ≡ d.parent
  linked_parent-own ids d other = elim (Bool-cases (u.eq d.uuid folder_uuid)) [
    | inl e ↦ absurd (other ((ids.eq_iff d.uuid folder_uuid).0 e))
    | inr e ↦ rw e
  ]

  module _ (ids : IsUuids u) (json : IsJson t) (lawful : IsCiphers c) (draws : Draws)
      (drawn : IsDrawn draws) {E : Type 0} where
    pub from_folder_data-IsAdded :
        (d : FolderData u) (payload : DirLinkAddRequestPayload u)
        → from_folder_data t c u {E = E} api_key
            (linked_parent u folder_uuid d)
            link.link_uuid
            link.link_key_metadata
            master_keys
            draws
            d
          ≡ returns (ok payload)
        → IsAdded (inl d) payload
    unfolding from_folder_data from_folder_name
    from_folder_data-IsAdded d payload h =
        elim (Result-cases (decrypt_name_from_metadata t c d.name_metadata master_keys)) [
          | inr (e, failed) ↦ absurd (cc (rw (failed, from_folder_data) at h))
          | inl (name, opened) ↦
              elim (Result-cases
                (decrypt_metadata_str_any_key c link.link_key_metadata master_keys)) [
                  | inr (e, failed) ↦
                      absurd (cc (rw (opened, from_folder_data, failed, from_folder_name) at h))
                  | inl (link_key, key_opened) ↦
                      let json_name =
                        name-WritesName t c json d.name_metadata name master_keys opened in
                      let (metadata, made, reads) =
                        decrypt_name_from_metadata-encrypt_name_to_metadata t c lawful name link_key
                          [] draws json_name drawn in
                      let h' =
                        rw (opened, from_folder_data, key_opened, from_folder_name, made) at h in
                      (
                        (cc h', cc h', cc h', cc h', cc h', cc h', cc h'),
                        λ same. cc (h', linked_parent-base ids d same),
                        λ other. cc (h', linked_parent-own ids d other),
                        cc h',
                        cc h',
                        (link_key, name, key_opened, opened, cc (h', reads)),
                      )
                ]
        ]

    pub from_file_data-IsAdded :
        (d : FileData u) (payload : DirLinkAddRequestPayload u)
        → from_file_data t c u {E = E} api_key
            (folder d.parent)
            link.link_uuid
            link.link_key_metadata
            master_keys
            draws
            d
          ≡ returns (ok payload)
        → IsAdded (inr d) payload
    unfolding from_file_data from_file_properties
    from_file_data-IsAdded d payload h =
        elim (Result-cases (decrypt_file_metadata t c d.metadata master_keys)) [
          | inr (e, failed) ↦ absurd (cc (rw (failed, from_file_data) at h))
          | inl (p, opened) ↦
              elim (Result-cases
                (decrypt_metadata_str_any_key c link.link_key_metadata master_keys)) [
                  | inr (e, failed) ↦
                      absurd (cc (rw (opened, from_file_data, failed, from_file_properties) at h))
                  | inl (link_key, key_opened) ↦
                      let json_file = file-WritesFile t c json d.metadata p master_keys opened in
                      let (metadata, made, reads) =
                        decrypt_file_metadata-encrypt_file_metadata t c lawful p link_key [] draws
                          json_file drawn in
                      let h' =
                        rw (opened, from_file_data, key_opened, from_file_properties, made) at h in
                      (
                        (cc h', cc h', cc h', cc h', cc h', cc h', cc h'),
                        cc h',
                        cc h',
                        cc h',
                        (link_key, p, key_opened, opened, cc (h', reads)),
                      )
                ]
        ]
