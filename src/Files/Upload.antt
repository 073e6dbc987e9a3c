-- ===== src/Files/Upload.antt =====
-- `FileUploadProperties::from_file_properties` of src/v1/upload_file.rs.
use rust_filen.Base.{
  ℕ, suc, ◌*◌, ◌^◌, ◌<◌, ◌≡◌, refl, [], ◌∷◌, Option, none, some, true, ok, Outcome, returns, panics,
  arith, length, All, Option-cases, inl, inr,
}
use mathlib.Core.Option.{some-injective}
use rust_filen.Base.Text.{Bytes}
use rust_filen.Base.Utf8.{is_utf8, IsAscii-is_utf8}
use rust_filen.Base.Decimal.{decimal, decimal-All, IsDigit}
use rust_filen.Names.{Uuids, never}
use rust_filen.Chunks.{calculate_chunk_count}
use rust_filen.Chunks.Spec.{Fits, chunk_count, layout}
use rust_filen.Chunks.Count.{calculate_chunk_count-length}
use rust_filen.Crypto.Primitives.{Ciphers, IsCiphers, IsBytes}
use rust_filen.Crypto.Metadata.{Draws, decrypt_metadata_str}
use rust_filen.Crypto.Metadata.RoundTrip.{IsDrawn, encrypt_metadata_str-total}
use rust_filen.Files.{
  FileProperties, Texts, WritesFile, name_hashed, encrypt_file_metadata, decrypt_file_metadata,
  name_encrypted, size_encrypted, mime_encrypted,
}
use rust_filen.Files.RoundTrip.{decrypt_file_metadata-encrypt_file_metadata}
use rust_filen.Upload.{FileUploadProperties, file_chunk_size}

-- What the function draws: a salt for each metadata, and three identifiers.
pub record UploadDraws (u : Uuids) : Type 0 where
  pub uuid : u.Uuid
  pub rm : Bytes
  pub upload_key : Bytes
  pub file : Draws
  pub name : Draws
  pub size : Draws
  pub mime : Draws

abbrev after : {A B : Type 0} → Outcome A → (A → Outcome B) → Outcome B
after panics f = panics
after (returns a) f = f a

module _ (u : Uuids) (t : Texts) (c : Ciphers) where
  -- With the chunks counted.
  unfoldable pub with_chunks :
      ℕ → FileProperties → ℕ → u.Uuid → Bytes → UploadDraws u → Outcome (FileUploadProperties u)
  with_chunks file_chunks p version parent_folder_uuid last_master_key draws =
      after (encrypt_file_metadata t c p last_master_key draws.file) λ file_metadata.
        after (name_encrypted t c p draws.name) λ name_metadata.
          after (size_encrypted t c p draws.size) λ size_metadata.
            after (mime_encrypted t c p draws.mime) λ mime_metadata. returns (record {
              uuid = draws.uuid;
              name_metadata = name_metadata;
              name_hashed = name_hashed t p.name;
              size_metadata = size_metadata;
              chunks = file_chunks;
              mime_metadata = mime_metadata;
              file_metadata = file_metadata;
              file_key = p.key;
              rm = draws.rm;
              upload_key = draws.upload_key;
              expire = never;
              parent_uuid = parent_folder_uuid;
              version = version;
            })

  -- Within `fuel` rounds of the count of chunks; `none` means that they did not suffice.
  unfoldable pub from_file_properties :
      ℕ
      → FileProperties
      → ℕ
      → u.Uuid
      → Bytes
      → UploadDraws u
      → Option (Outcome (FileUploadProperties u))
  from_file_properties fuel p version parent_folder_uuid last_master_key draws =
      elim (calculate_chunk_count fuel file_chunk_size p.size) [
        | none ↦ none
        | some file_chunks ↦
            some (with_chunks file_chunks p version parent_folder_uuid last_master_key draws)
      ]

after-returns :
    {A B : Type 0} (o : Outcome A) (f : A → Outcome B) (b : B)
    → after o f ≡ returns b
    → (a : A) × (f a ≡ returns b)
after-returns panics f b h = absurd (cc h)
after-returns (returns a) f b h = (a, h)

-- The upload properties have the key and the version that they were made for.
with_chunks-Keyed :
    (u : Uuids) (t : Texts) (c : Ciphers) (n : ℕ) (p : FileProperties) (version : ℕ)
    (parent : u.Uuid) (key : Bytes) (draws : UploadDraws u) (upload : FileUploadProperties u)
    → with_chunks u t c n p version parent key draws ≡ returns upload
    → (upload.file_key ≡ p.key) × (upload.version ≡ version)
unfolding with_chunks
with_chunks-Keyed u t c n p version parent key draws upload h =
    let (file, h_1) = after-returns (encrypt_file_metadata t c p key draws.file) _ upload h in
    let (name, h_2) = after-returns (name_encrypted t c p draws.name) _ upload h_1 in
    let (size, h_3) = after-returns (size_encrypted t c p draws.size) _ upload h_2 in
    let (mime, h_4) = after-returns (mime_encrypted t c p draws.mime) _ upload h_3 in
    (cc h_4, cc h_4)

pub from_file_properties-Keyed :
    (u : Uuids) (t : Texts) (c : Ciphers) (fuel : ℕ) (p : FileProperties) (version : ℕ)
    (parent : u.Uuid) (key : Bytes) (draws : UploadDraws u) (upload : FileUploadProperties u)
    → from_file_properties u t c fuel p version parent key draws ≡ some (returns upload)
    → (upload.file_key ≡ p.key) × (upload.version ≡ version)
unfolding from_file_properties
from_file_properties-Keyed u t c fuel p version parent key draws upload h =
    elim (Option-cases (calculate_chunk_count fuel file_chunk_size p.size)) [
      | inl e ↦ absurd (cc (rw (e, from_file_properties) at h))
      | inr (n, e) ↦
          let h' = rw (e, from_file_properties) at h in
          with_chunks-Keyed u t c n p version parent key draws upload (some-injective _ _ h')
    ]

-- The draws have the right shapes.
pub record AreDrawn {u : Uuids} (draws : UploadDraws u) : Type 0 where
  pub file : IsDrawn draws.file
  pub name : IsDrawn draws.name
  pub size : IsDrawn draws.size
  pub mime : IsDrawn draws.mime

digits-IsBytes : (s : Bytes) → All IsDigit s → IsBytes s
digits-IsBytes [] h = tt
digits-IsBytes (b ∷ s) (hb, hs) = (omega arith, digits-IsBytes s hs)

digits-is_utf8 : (s : Bytes) → All IsDigit s → is_utf8 s ≡ true
digits-is_utf8 s h = IsAscii-is_utf8 s (digits-IsAscii s h)
  where
    digits-IsAscii : (s : Bytes) → All IsDigit s → All (λ x. x < 128) s
    digits-IsAscii [] h = tt
    digits-IsAscii (b ∷ s) (hb, hs) = (omega arith, digits-IsAscii s hs)

-- The upload properties of a file are made without a panic and within one round for each chunk and one
-- more; they tell the number of chunks, and their metadata is read back: the properties with the last
-- master key, and name, size and type with the file's key. Stated for a file of fewer than 2^32 chunks,
-- with the offset behind the last one below 2^64, names and types of UTF-8 bytes, JSON that is read
-- back, draws of the right shapes, and ciphers that keep their promises.
pub from_file_properties-decrypt :
    (u : Uuids) (t : Texts) (c : Ciphers)
    → IsCiphers c
    → (p : FileProperties) (version : ℕ) (parent : u.Uuid) (key : Bytes) (draws : UploadDraws u)
    → WritesFile t p
    → AreDrawn draws
    → Fits file_chunk_size p.size
    → chunk_count file_chunk_size p.size * file_chunk_size < 2 ^ 64
    → IsBytes p.name
    → is_utf8 p.name ≡ true
    → IsBytes p.mime
    → is_utf8 p.mime ≡ true
    → (upload : FileUploadProperties u) × (from_file_properties u t c
          (suc (chunk_count file_chunk_size p.size))
          p
          version
          parent
          key
          draws
        ≡ some (returns upload))
      × (upload.chunks ≡ length (layout file_chunk_size p.size))
      × (decrypt_file_metadata t c upload.file_metadata (key ∷ []) ≡ ok p)
      × (decrypt_metadata_str c upload.name_metadata p.key ≡ ok p.name)
      × (decrypt_metadata_str c upload.size_metadata p.key ≡ ok (decimal p.size))
      × (decrypt_metadata_str c upload.mime_metadata p.key ≡ ok p.mime)
unfolding from_file_properties with_chunks name_encrypted size_encrypted mime_encrypted
from_file_properties-decrypt u t c lawful p version parent key draws json drawn fits no_wrap nb nu
      mb mu =
    let (file, file_made, file_back) =
      decrypt_file_metadata-encrypt_file_metadata t c lawful p key [] draws.file json drawn.file in
    let (name, name_made, name_back) =
      encrypt_metadata_str-total c lawful p.name p.key draws.name drawn.name nb nu in
    let digits = decimal-All p.size in
    let (size, size_made, size_back) =
      encrypt_metadata_str-total c lawful (decimal p.size) p.key draws.size drawn.size
        (digits-IsBytes (decimal p.size) digits) (digits-is_utf8 (decimal p.size) digits) in
    let (mime, mime_made, mime_back) =
      encrypt_metadata_str-total c lawful p.mime p.key draws.mime drawn.mime mb mu in
    let counted = calculate_chunk_count-length file_chunk_size p.size fits no_wrap in
    let upload : FileUploadProperties u = record {
      uuid = draws.uuid;
      name_metadata = name;
      name_hashed = name_hashed t p.name;
      size_metadata = size;
      chunks = length (layout file_chunk_size p.size);
      mime_metadata = mime;
      file_metadata = file;
      file_key = p.key;
      rm = draws.rm;
      upload_key = draws.upload_key;
      expire = never;
      parent_uuid = parent;
      version = version;
    } in
    let made : with_chunks u t c (length (layout file_chunk_size p.size)) p version parent key draws
        ≡ returns upload =
      rw (file_made, name_made, size_made, mime_made, with_chunks) refl in
    (
      upload,
      rw (counted, made, from_file_properties) refl,
      refl,
      file_back,
      name_back,
      size_back,
      mime_back,
    )
