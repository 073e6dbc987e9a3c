-- ===== src/Tests/Files.antt =====
-- Metadata of files and folders with small crates.
use rust_filen.Base.{suc, ◌≡◌, refl, [], ◌∷◌, none, some, ok, returns, arith, length}
use mathlib.Core.Bool.{false, true}
use rust_filen.Base.Text.{Bytes, codes}
use rust_filen.Base.Utf8.{is_utf8}
use rust_filen.Base.Decimal.{decimal}
use rust_filen.Chunks.Spec.{Fits, chunk_count, layout}
use rust_filen.Crypto.Metadata.{Draws, decrypt_metadata_str}
use rust_filen.Crypto.Metadata.RoundTrip.{IsDrawn}
use rust_filen.Tests.Instances.{plain_ciphers, plain_ciphers-IsCiphers, two_uuids}
use rust_filen.Upload.{FileUploadProperties, file_chunk_size}
use rust_filen.Files.{FileProperties, Texts, IsText, WritesFile, WritesName, decrypt_file_metadata}
use rust_filen.Folders.{decrypt_name_size_mime}
use rust_filen.Folders.Uploaded.{uploaded, decrypt_name_size_mime-from_file_properties}
use rust_filen.Tests.Folders.{photo_data}
use rust_filen.Files.Upload.{
  UploadDraws, AreDrawn, from_file_properties, from_file_properties-decrypt,
}

abbrev pub notes : FileProperties
notes = record {
  name = codes "notes.txt";
  size = 5;
  mime = codes "text/plain";
  key = codes "kkkkkkkkkkkkkkkkkkkkkkkkkkkkkkkk";
  last_modified = 7;
}

-- Crates that write one text for everything and read it back as the values of these tests.
abbrev pub texts : Texts
texts = record {
  file_to_json = λ p. codes "{}";
  file_from_json = λ s. some notes;
  name_to_json = λ name. codes "{}";
  name_from_json = λ s. some (codes "music");
  mime_guess = λ name. none;
  sha1_hex = λ s. s;
  sha512_hex = λ s. s;
  to_lowercase = λ s. s;
}

braces-IsText : IsText (codes "{}")
braces-IsText = record {
  ne_nil = λ e. cc e;
  bytes = search (arith, tt);
  utf8 = unfold is_utf8 in refl;
}

pub notes-WritesFile : WritesFile texts notes
notes-WritesFile = record { reads_back = refl; text = braces-IsText }

pub music-WritesName : WritesName texts (codes "music")
music-WritesName = record { reads_back = refl; text = braces-IsText }

abbrev pub draws : Draws
draws = record { salt = codes "saltsalt"; iv = codes "abcdefghijkl" }

pub draws-IsDrawn : IsDrawn draws
draws-IsDrawn = record {
  length_salt = omega arith;
  salt-IsBytes = search (arith, tt);
  length_iv = omega arith;
  iv-IsAscii = search (arith, tt);
}

abbrev pub upload_draws : UploadDraws two_uuids
upload_draws = record {
  uuid = false;
  rm = codes "r";
  upload_key = codes "u";
  file = draws;
  name = draws;
  size = draws;
  mime = draws;
}

pub upload_draws-AreDrawn : AreDrawn upload_draws
upload_draws-AreDrawn = record {
  file = draws-IsDrawn;
  name = draws-IsDrawn;
  size = draws-IsDrawn;
  mime = draws-IsDrawn;
}

pub five-Fits : Fits file_chunk_size 5
unfolding chunk_count
five-Fits = record {
  positive = omega arith;
  chunk_size_lt = omega arith;
  file_size_lt = omega arith;
  count_lt = omega arith;
}

from_file_properties-decrypt_example :
    (upload : FileUploadProperties two_uuids) × (from_file_properties two_uuids texts plain_ciphers
        (suc (chunk_count file_chunk_size 5))
        notes
        2
        true
        (codes "key")
        upload_draws
      ≡ some (returns upload))
    × (upload.chunks ≡ length (layout file_chunk_size 5))
    × (decrypt_file_metadata texts plain_ciphers upload.file_metadata (codes "key" ∷ []) ≡ ok notes)
    × (decrypt_metadata_str plain_ciphers upload.name_metadata notes.key ≡ ok notes.name)
    × (decrypt_metadata_str plain_ciphers upload.size_metadata notes.key ≡ ok (decimal 5))
    × (decrypt_metadata_str plain_ciphers upload.mime_metadata notes.key ≡ ok notes.mime)
from_file_properties-decrypt_example =
    from_file_properties-decrypt two_uuids texts plain_ciphers plain_ciphers-IsCiphers notes 2 true
      (codes "key") upload_draws notes-WritesFile upload_draws-AreDrawn five-Fits
      (unfold chunk_count in omega arith) (search (arith, tt)) (unfold is_utf8 in refl)
      (search (arith, tt)) (unfold is_utf8 in refl)

decrypt_name_size_mime-from_file_properties_example :
    (upload : FileUploadProperties two_uuids) × (from_file_properties two_uuids texts plain_ciphers
        (suc (chunk_count file_chunk_size 5))
        notes
        2
        true
        (codes "key")
        upload_draws
      ≡ some (returns upload))
    × (decrypt_name_size_mime two_uuids plain_ciphers {E = Bytes}
          (uploaded photo_data upload)
          notes.key
        ≡ ok (record { name = notes.name; size = 5; mime = notes.mime }))
decrypt_name_size_mime-from_file_properties_example =
    decrypt_name_size_mime-from_file_properties two_uuids texts plain_ciphers
      plain_ciphers-IsCiphers notes 2 true (codes "key") upload_draws photo_data notes-WritesFile
      upload_draws-AreDrawn five-Fits (unfold chunk_count in omega arith) (search (arith, tt))
      (unfold is_utf8 in refl) (search (arith, tt)) (unfold is_utf8 in refl)
