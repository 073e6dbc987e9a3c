-- ===== src/Dirs/Created.antt =====
-- What the payloads of src/v1/dirs.rs that name a folder tell the servers.
use rust_filen.Base.{◌≡◌, refl, ap, List, ◌∷◌, returns, ok}
use rust_filen.Base.Text.{Bytes}
use rust_filen.Names.{Uuids}
use rust_filen.Crypto.Primitives.{Ciphers, IsCiphers}
use rust_filen.Crypto.Metadata.{Draws}
use rust_filen.Crypto.Metadata.RoundTrip.{IsDrawn}
use rust_filen.Files.{
  Texts, WritesName, hash_fn, name_hashed, encrypt_name_to_metadata, decrypt_name_from_metadata,
}
use rust_filen.Files.RoundTrip.{decrypt_name_from_metadata-encrypt_name_to_metadata}
use rust_filen.Dirs.{LocationKind}
use rust_filen.Dirs.Payloads.{
  DirCreateRequestPayload, DirSubCreateRequestPayload, DirRenameRequestPayload, made_of, create_new,
  sub_create_new, rename_new,
}

module _ (t : Texts) (c : Ciphers) (name : Bytes) (keys : List Bytes) where
  -- The name that the metadata gives, and the hash of its lower case.
  abbrev pub Names : (name_metadata name_hash : Bytes) → Type 0
  Names name_metadata name_hash =
      (decrypt_name_from_metadata t c name_metadata keys ≡ ok name)
      × (name_hash ≡ t.sha1_hex (t.sha512_hex (t.to_lowercase name)))

module _ (t : Texts) (c : Ciphers) (lawful : IsCiphers c) (name key : Bytes) (keys : List Bytes)
    (draws : Draws) (writes : WritesName t name) (drawn : IsDrawn draws) where
  -- A payload is made of the metadata of the name.
  named :
      {A : Type 0} (make : Bytes → A)
      → (metadata : Bytes) × (made_of (encrypt_name_to_metadata t c name key draws) make
          ≡ returns (make metadata))
        × Names t c name (key ∷ keys) metadata (name_hashed t name)
  unfolding name_hashed hash_fn
  named make =
      let (metadata, made, back) =
        decrypt_name_from_metadata-encrypt_name_to_metadata t c lawful name key keys draws writes
          drawn in
      (metadata, ap (λ o. made_of o make) made, (back, refl))

-- The payloads that create a folder, create one below another and rename one are always made,
-- without a panic, for the folder and the parent given; their metadata gives the name with the
-- last master key, whatever keys follow, and their hash is that of the name in lower case.
-- Stated for a name that JSON writes and reads back, and for the ciphers and draws of the metadata.
pub decrypt_name_from_metadata-new :
    (t : Texts) (c : Ciphers)
    → IsCiphers c
    → (u : Uuids) (api_key name key : Bytes) (keys : List Bytes) (uuid parent : u.Uuid)
      (draws : Draws)
    → WritesName t name
    → IsDrawn draws
    → ((p : DirCreateRequestPayload u) × (create_new u t c api_key name key uuid draws ≡ returns p)
        × Names t c name (key ∷ keys) p.name_metadata p.name_hash
        × (p.dir_type ≡ LocationKind.folder)
        × (p.uuid ≡ uuid))
      × ((p : DirSubCreateRequestPayload u) × (sub_create_new u t c api_key name parent key uuid
              draws
            ≡ returns p)
          × Names t c name (key ∷ keys) p.name_metadata p.name_hash
          × (p.parent ≡ parent)
          × (p.uuid ≡ uuid))
      × ((p : DirRenameRequestPayload u) × (rename_new u t c api_key uuid name key draws
            ≡ returns p)
          × Names t c name (key ∷ keys) p.name_metadata p.name_hash
          × (p.uuid ≡ uuid))
unfolding create_new sub_create_new rename_new
decrypt_name_from_metadata-new t c lawful u api_key name key keys uuid parent draws writes drawn =
    let (_, made, names) = named t c lawful name key keys draws writes drawn _ in
    let (_, made', names') = named t c lawful name key keys draws writes drawn _ in
    let (_, made'', names'') = named t c lawful name key keys draws writes drawn _ in
    ((_, made, names, refl, refl), (_, made', names', refl, refl), (_, made'', names'', refl))
