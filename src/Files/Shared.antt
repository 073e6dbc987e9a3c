-- ===== src/Files/Shared.antt =====
-- File and folder metadata for the receiver of a share, encrypted with RSA: src/v1/files.rs and
-- src/v1/fs.rs.
use rust_filen.Base.{
  ◌≤◌, ◌≡◌, refl, false, some, Result, ok, map_ok, map_err, length, arith, if◌then◌else◌,
  Result-cases, inl, inr,
}
use rust_filen.Base.Text.{Bytes, codes, eq_ignore_ascii_case, eq_ignore_ascii_case-length}
use rust_filen.Base.Fallible.{◌>>=◌}
use rust_filen.Crypto.Primitives.{Ciphers, IsCiphers, CryptoError}
use rust_filen.Crypto.Rsa.{Rsa, IsKeyPair, encrypt_rsa, decrypt_rsa, decrypt_rsa-encrypt_rsa}
use rust_filen.Files.{
  FileProperties, Texts, FilesError, parsed, extract_name_from_folder_properties_json,
  cannot_decode_base64_metadata, decrypt_file_metadata_rsa_failed, encrypt_file_metadata_rsa_failed,
  decrypt_location_name_failed, deserialize_file_metadata_failed,
}

module _ (t : Texts) (c : Ciphers) (rsa : Rsa) where
  -- `FileProperties::encrypt_file_metadata_rsa`, and `to_metadata_rsa_string`.
  unfoldable pub encrypt_file_metadata_rsa :
      FileProperties → Bytes → Bytes → Result Bytes FilesError
  encrypt_file_metadata_rsa file_properties rsa_public_key seed = do
    let metadata_json = t.file_to_json file_properties
    encrypted ←
        map_err (encrypt_file_metadata_rsa_failed metadata_json)
          (encrypt_rsa rsa metadata_json rsa_public_key seed)
    ok (c.base64_encode encrypted)

  unfoldable pub to_metadata_rsa_string : FileProperties → Bytes → Bytes → Result Bytes FilesError
  unfolding encrypt_file_metadata_rsa
  to_metadata_rsa_string = encrypt_file_metadata_rsa

  unfoldable pub decrypt_file_metadata_rsa : Bytes → Bytes → Result FileProperties FilesError
  decrypt_file_metadata_rsa metadata rsa_private_key = do
    decoded ← parsed (cannot_decode_base64_metadata metadata) (c.base64_decode metadata)
    decrypted ←
        map_err (decrypt_file_metadata_rsa_failed metadata)
          (decrypt_rsa rsa decoded rsa_private_key)
    parsed (deserialize_file_metadata_failed metadata) (t.file_from_json decrypted)

  -- `LocationNameMetadata::encrypt_name_to_metadata_rsa`
  unfoldable pub encrypt_name_to_metadata_rsa : Bytes → Bytes → Bytes → Result Bytes CryptoError
  encrypt_name_to_metadata_rsa name rsa_public_key seed =
      map_ok c.base64_encode (encrypt_rsa rsa (t.name_to_json name) rsa_public_key seed)

  unfoldable pub decrypt_name_from_metadata_rsa : Bytes → Bytes → Result Bytes FilesError
  decrypt_name_from_metadata_rsa name_metadata rsa_private_key =
      if eq_ignore_ascii_case name_metadata (codes "default") then ok (codes "Default") else (do
        decoded ←
            parsed (cannot_decode_base64_metadata name_metadata) (c.base64_decode name_metadata)
        json ←
            map_err (decrypt_location_name_failed name_metadata)
              (decrypt_rsa rsa decoded rsa_private_key)
        extract_name_from_folder_properties_json t json)

  module _ (lawful : IsCiphers c) {public_key private_key : Bytes}
      (pair : IsKeyPair rsa public_key private_key) where
    -- The receiver reads the properties of a shared file.
    pub decrypt_file_metadata_rsa-to_metadata_rsa_string :
        (p : FileProperties) (seed m : Bytes)
        → t.file_from_json (t.file_to_json p) ≡ some p
        → to_metadata_rsa_string p public_key seed ≡ ok m
        → decrypt_file_metadata_rsa m private_key ≡ ok p
    unfolding to_metadata_rsa_string decrypt_file_metadata_rsa
    decrypt_file_metadata_rsa-to_metadata_rsa_string p seed m reads h =
        elim (Result-cases (encrypt_rsa rsa (t.file_to_json p) public_key seed)) [
          | inl (b, e) ↦
              let (opens, bytes, _) =
                decrypt_rsa-encrypt_rsa rsa pair (t.file_to_json p) seed b e in
              let same : c.base64_encode b ≡ m = cc (rw (e, map_err, ◌>>=◌) at h) in
              rw (← same, lawful.base64_decode-base64_encode b bytes, opens, reads) refl
          | inr (x, e) ↦ absurd (cc (rw (e, map_err, ◌>>=◌) at h))
        ]

    not_default :
        (b : Bytes)
        → 8 ≤ length b
        → eq_ignore_ascii_case (c.base64_encode b) (codes "default") ≡ false
    not_default b long =
        let longer = lawful.le-length-base64_encode b in
        eq_ignore_ascii_case-length (c.base64_encode b) (codes "default")
          (λ same. omega (arith, longer, same))

    -- The receiver reads the name of a shared folder.
    pub decrypt_name_from_metadata_rsa-encrypt_name_to_metadata_rsa :
        (name seed m : Bytes)
        → t.name_from_json (t.name_to_json name) ≡ some name
        → encrypt_name_to_metadata_rsa name public_key seed ≡ ok m
        → decrypt_name_from_metadata_rsa m private_key ≡ ok name
    unfolding encrypt_name_to_metadata_rsa decrypt_name_from_metadata_rsa
    decrypt_name_from_metadata_rsa-encrypt_name_to_metadata_rsa name seed m reads h =
        elim (Result-cases (encrypt_rsa rsa (t.name_to_json name) public_key seed)) [
          | inl (b, e) ↦
              let (opens, bytes, long) =
                decrypt_rsa-encrypt_rsa rsa pair (t.name_to_json name) seed b e in
              let same : c.base64_encode b ≡ m = cc (rw (e, map_ok) at h) in
              rw
                (
                  ← same,
                  not_default b long,
                  lawful.base64_decode-base64_encode b bytes,
                  opens,
                  reads,
                )
                refl
          | inr (x, e) ↦ absurd (cc (rw (e, map_ok) at h))
        ]
