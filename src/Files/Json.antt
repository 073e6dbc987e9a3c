-- ===== src/Files/Json.antt =====
-- What the JSON of names and properties (src/v1/files.rs, src/v1/fs.rs) keeps: a value that was read from
-- metadata is written so that it is read back.
use rust_filen.Base.{
  ◌≡◌, refl, List, Option, some, none, true, ok, Bool-cases, Result-cases, inl, inr,
}
use rust_filen.Base.Text.{Bytes, codes, eq_ignore_ascii_case}
use rust_filen.Base.Utf8.{is_utf8}
use rust_filen.Crypto.Primitives.{Ciphers}
use rust_filen.Crypto.Metadata.{decrypt_metadata_str_any_key}
use rust_filen.Files.{
  FileProperties, Texts, WritesFile, WritesName, FilesError, parsed, decrypt_file_metadata,
  decrypt_name_from_metadata,
}

-- What `serde_json` documents: it reads back what it writes, for values that it has read and for names in
-- UTF-8, and the strings that it reads are UTF-8.
pub record IsJson (t : Texts) : Type 0 where
  pub writes_file :
      (json : Bytes) (p : FileProperties) → t.file_from_json json ≡ some p → WritesFile t p
  pub writes_name : (name : Bytes) → is_utf8 name ≡ true → WritesName t name
  pub name-is_utf8 : (json name : Bytes) → t.name_from_json json ≡ some name → is_utf8 name ≡ true

parsed-ok : {A : Type 0} (e : FilesError) (o : Option A) (a : A) → parsed e o ≡ ok a → o ≡ some a
parsed-ok e none a h = absurd (cc h)
parsed-ok e (some b) a h = cc h

module _ (t : Texts) (c : Ciphers) (json : IsJson t) where
  -- A name that was read from metadata is written so that it is read back.
  pub name-WritesName :
      (metadata name : Bytes) (keys : List Bytes)
      → decrypt_name_from_metadata t c metadata keys ≡ ok name
      → WritesName t name
  unfolding decrypt_name_from_metadata is_utf8
  name-WritesName metadata name keys h =
      elim (Bool-cases (eq_ignore_ascii_case metadata (codes "default"))) [
        | inl e ↦
            let same : codes "Default" ≡ name = cc (rw e at h) in
            rw (← same) (json.writes_name (codes "Default") refl)
        | inr e ↦ elim (Result-cases (decrypt_metadata_str_any_key c metadata keys)) [
          | inl (m, got) ↦
              let found = parsed-ok _ (t.name_from_json m) name (rw (e, got) at h) in
              json.writes_name name (json.name-is_utf8 m name found)
          | inr (x, got) ↦ absurd (cc (rw (e, got) at h))
        ]
      ]

  pub file-WritesFile :
      (metadata : Bytes) (p : FileProperties) (keys : List Bytes)
      → decrypt_file_metadata t c metadata keys ≡ ok p
      → WritesFile t p
  unfolding decrypt_file_metadata
  file-WritesFile metadata p keys h =
      elim (Result-cases (decrypt_metadata_str_any_key c metadata keys)) [
        | inl (m, got) ↦
            json.writes_file m p
              (parsed-ok _ (t.file_from_json m) p (rw (got, decrypt_file_metadata) at h))
        | inr (x, got) ↦ absurd (cc (rw (got, decrypt_file_metadata) at h))
      ]
