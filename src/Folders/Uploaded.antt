-- ===== src/Folders/Uploaded.antt =====
-- `FileData::decrypt_name_size_mime` of src/v1/download_dir.rs on what src/v1/upload_file.rs stores of a file.
use rust_filen.Base.{ℕ, suc, ◌*◌, ◌^◌, ◌<◌, ◌≡◌, refl, true, some, ok, returns, arith}
use rust_filen.Base.Utf8.{is_utf8}
use rust_filen.Base.Text.{Bytes}
use rust_filen.Base.Decimal.{parse_unsigned-decimal, u64_max}
use rust_filen.Names.{Uuids}
use rust_filen.Chunks.Spec.{Fits, chunk_count}
use rust_filen.Crypto.Primitives.{Ciphers, IsCiphers, IsBytes}
use rust_filen.Files.{FileProperties, Texts, WritesFile}
use rust_filen.Files.Upload.{
  UploadDraws, AreDrawn, from_file_properties, from_file_properties-decrypt,
}
use rust_filen.Folders.{FileData, decrypt_name_size_mime}
use rust_filen.Upload.{FileUploadProperties, file_chunk_size}

-- The data of a file with the metadata of its upload.
abbrev pub uploaded : {u : Uuids} → FileData u → FileUploadProperties u → FileData u
uploaded d upload = record d {
  name_metadata = upload.name_metadata;
  size_metadata = upload.size_metadata;
  mime_metadata = upload.mime_metadata;
}

-- A file that is listed with the metadata of its upload gives its name, size and type with its key.
-- Stated for a file of fewer than 2^32 chunks, with the offset behind the last one below 2^64, names and
-- types of UTF-8 bytes, JSON that is read back, draws of the right shapes, and ciphers that keep their
-- promises.
pub decrypt_name_size_mime-from_file_properties :
    (u : Uuids) (t : Texts) (c : Ciphers)
    → IsCiphers c
    → {E : Type 0} (p : FileProperties) (version : ℕ) (parent : u.Uuid) (key : Bytes)
      (draws : UploadDraws u) (d : FileData u)
    → WritesFile t p
    → AreDrawn draws
    → Fits file_chunk_size p.size
    → chunk_count file_chunk_size p.size * file_chunk_size < 2 ^ 64
    → IsBytes p.name
    → is_utf8 p.name ≡ true
    → IsBytes p.mime
    → is_utf8 p.mime ≡ true
    → (upload : FileUploadProperties u) × (from_file_properties u t c
          (suc (chunk_count file_chunk_size p.size))
          p
          version
          parent
          key
          draws
        ≡ some (returns upload))
      × (decrypt_name_size_mime u c {E = E} (uploaded d upload) p.key
          ≡ ok (record { name = p.name; size = p.size; mime = p.mime }))
unfolding decrypt_name_size_mime
decrypt_name_size_mime-from_file_properties u t c lawful p version parent key draws d json drawn
      fits no_wrap nb nu mb mu =
    let (upload, made, _, _, name, size, mime) =
      from_file_properties-decrypt u t c lawful p version parent key draws json drawn fits no_wrap
        nb nu mb mu in
    let below = fits.file_size_lt in
    let reads =
      parse_unsigned-decimal u64_max p.size (omega (arith, below)) (omega (arith, below)) in
    (upload, made, rw (name, size, reads, mime) refl)
