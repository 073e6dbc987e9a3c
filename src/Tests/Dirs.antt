-- ===== src/Tests/Dirs.antt =====
-- Payloads that name a folder, on concrete inputs.
use rust_filen.Base.{◌≡◌, [], ◌∷◌, ◌++◌, none, some, Bool, true, false, refl, returns}
use rust_filen.Base.Text.{codes}
use rust_filen.Names.{content, print_content_kind}
use rust_filen.Dirs.{LocationKind, UserDirData, find_default_folder}
use rust_filen.Dirs.Payloads.{
  DirCreateRequestPayload, DirSubCreateRequestPayload, DirRenameRequestPayload, content_new,
  create_new, sub_create_new, rename_new,
}
use rust_filen.Dirs.Created.{Names, decrypt_name_from_metadata-new}
use rust_filen.Tests.Files.{texts, draws, draws-IsDrawn, music-WritesName}
use rust_filen.Tests.Instances.{plain_ciphers, plain_ciphers-IsCiphers, two_uuids}

listed :
    (content_new two_uuids (codes "api") (content true)).folders
    ≡ codes "[\"" ++ (two_uuids.hyphenated true ++ codes "\"]")
unfolding content_new print_content_kind
listed = refl

abbrev dir : Bool → UserDirData two_uuids
dir b = record {
  uuid = b;
  name_metadata = [];
  parent = none;
  default_ = b;
  sync_ = false;
  is_default = 0;
  is_sync = 0;
  color = none;
}

found :
    find_default_folder two_uuids
      (record { status = true; message = none; data_ = some (dir false ∷ dir true ∷ []) })
    ≡ some (dir true)
unfolding find_default_folder
found = refl

decrypt_name_from_metadata-new_example :
    ((p : DirCreateRequestPayload two_uuids) × (create_new two_uuids texts plain_ciphers
          (codes "api")
          (codes "music")
          (codes "key")
          true
          draws
        ≡ returns p)
      × Names texts plain_ciphers (codes "music") (codes "key" ∷ []) p.name_metadata p.name_hash
      × (p.dir_type ≡ LocationKind.folder)
      × (p.uuid ≡ true))
    × ((p : DirSubCreateRequestPayload two_uuids) × (sub_create_new two_uuids texts plain_ciphers
            (codes "api")
            (codes "music")
            false
            (codes "key")
            true
            draws
          ≡ returns p)
        × Names texts plain_ciphers (codes "music") (codes "key" ∷ []) p.name_metadata p.name_hash
        × (p.parent ≡ false)
        × (p.uuid ≡ true))
    × ((p : DirRenameRequestPayload two_uuids) × (rename_new two_uuids texts plain_ciphers
            (codes "api")
            true
            (codes "music")
            (codes "key")
            draws
          ≡ returns p)
        × Names texts plain_ciphers (codes "music") (codes "key" ∷ []) p.name_metadata p.name_hash
        × (p.uuid ≡ true))
decrypt_name_from_metadata-new_example =
    decrypt_name_from_metadata-new texts plain_ciphers plain_ciphers-IsCiphers two_uuids
      (codes "api") (codes "music") (codes "key") [] true false draws music-WritesName draws-IsDrawn
