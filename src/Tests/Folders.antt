-- ===== src/Tests/Folders.antt =====
-- A folder's content, JSON and RSA in memory, for the tests of sharing and links.
use mathlib.Core.Option.{some-injective}
use mathlib.Core.Path.{subst}
use rust_filen.Base.{
  ℕ, ◌≡◌, ◌<◌, refl, [], ◌∷◌, ◌++◌, ◌&&◌, Option, none, some, Bool, true, false, Bool-cases, ltb,
  ltb→lt, if◌then◌else◌, inl, inr, arith, replicate, length, returns, ok, ap,
}
use rust_filen.Base.Text.{Bytes, codes}
use rust_filen.Base.Utf8.{is_utf8, is_utf8-IsBytes}
use rust_filen.Names.{base}
use rust_filen.Api.{ResponsePayload}
use rust_filen.Crypto.Primitives.{IsBytes, openssl_salt_prefix}
use rust_filen.Crypto.Rsa.{Rsa, IsKeyPair}
use rust_filen.Files.{FileProperties, Texts, IsText}
use rust_filen.Files.Json.{IsJson}
use rust_filen.Folders.{FolderData, FileData, DownloadDirResponseData, DirIo}
use rust_filen.Tests.Instances.{plain_ciphers, two_uuids}

abbrev pub photo : FileProperties
photo = record {
  name = codes "photo.png";
  size = 3;
  mime = codes "image/png";
  key = codes "kkkkkkkkkkkkkkkkkkkkkkkkkkkkkkkk";
  last_modified = 9;
}

-- A name behind a mark.
abbrev read_name : Bytes → Option Bytes
read_name [] = none
read_name (mark ∷ name) = if is_utf8 name then some name else none

-- JSON of one file and of all names.
abbrev pub json : Texts
json = record {
  file_to_json = λ p. codes "{}";
  file_from_json = λ s. some photo;
  name_to_json = λ name. b'n' ∷ name;
  name_from_json = read_name;
  mime_guess = λ name. none;
  sha1_hex = λ s. s;
  sha512_hex = λ s. s;
  to_lowercase = λ s. s;
}

braces-IsText : IsText (codes "{}")
unfolding is_utf8
braces-IsText = record { ne_nil = λ e. cc e; bytes = search (arith, tt); utf8 = refl }

name-IsText : (name : Bytes) → is_utf8 name ≡ true → IsText (b'n' ∷ name)
name-IsText name h = record {
  ne_nil = λ e. cc e;
  bytes = (omega arith, is_utf8-IsBytes name h);
  utf8 = unfold is_utf8 in h;
}

read_name-is_utf8 : (s name : Bytes) → read_name s ≡ some name → is_utf8 name ≡ true
read_name-is_utf8 [] name h = absurd (cc h)
read_name-is_utf8 (mark ∷ s) name h = elim (Bool-cases (is_utf8 s)) [
  | inl e ↦ let same : s ≡ name = cc (rw (e, read_name) at h) in rw (← same) e
  | inr e ↦ absurd (cc (rw (e, read_name) at h))
]

pub json-IsJson : IsJson json
json-IsJson = record {
  writes_file = λ s p h. record { reads_back = h; text = braces-IsText };
  writes_name = λ name h. record { reads_back = rw (h, read_name) refl; text = name-IsText name h };
  name-is_utf8 = read_name-is_utf8;
}

abbrev all_bytes : Bytes → Bool
all_bytes [] = true
all_bytes (b ∷ s) = ltb b 256 && all_bytes s

all_bytes-IsBytes : (s : Bytes) → all_bytes s ≡ true → IsBytes s
all_bytes-IsBytes [] h = tt
all_bytes-IsBytes (b ∷ s) h =
    let rest : all_bytes s ≡ true = ground arith in
    let small : ltb b 256 ≡ true = ground arith in (ltb→lt b 256 small, all_bytes-IsBytes s rest)

-- Encryption that puts eight bytes in front.
abbrev pub open_rsa : Rsa
open_rsa = record {
  RsaPublicKey = Bytes;
  RsaPrivateKey = Bytes;
  from_public_key_der = λ der. some der;
  from_pkcs8_der = λ der. some der;
  encrypt = λ key seed d. if all_bytes d then some (0 ∷ 0 ∷ 0 ∷ 0 ∷ 0 ∷ 0 ∷ 0 ∷ 0 ∷ d) else none;
  decrypt = λ key m. elim m [ a ∷ b ∷ x ∷ e ∷ f ∷ g ∷ h ∷ i ∷ d ↦ some d | _ ↦ none ];
}

encrypt_some :
    (key seed d m : Bytes)
    → open_rsa.encrypt key seed d ≡ some m
    → (all_bytes d ≡ true) × (0 ∷ 0 ∷ 0 ∷ 0 ∷ 0 ∷ 0 ∷ 0 ∷ 0 ∷ d ≡ m)
encrypt_some key seed d m h = elim (Bool-cases (all_bytes d)) [
  | inl e ↦ (e, some-injective _ _ (rw e at h))
  | inr e ↦ absurd (cc (rw e at h))
]

pub open_rsa-IsKeyPair : IsKeyPair open_rsa (codes "public") (codes "private")
open_rsa-IsKeyPair = record {
  public = codes "public";
  private = codes "private";
  reads_public = refl;
  reads_private = refl;
  decrypt-encrypt = λ seed d m h.
      subst (λ x. open_rsa.decrypt (codes "private") x ≡ some d)
        (encrypt_some (codes "public") seed d m h).1 refl;
  encrypt-IsBytes = λ seed d m h.
      let (e, same) = encrypt_some (codes "public") seed d m h in
      let bytes : IsBytes (0 ∷ 0 ∷ 0 ∷ 0 ∷ 0 ∷ 0 ∷ 0 ∷ 0 ∷ d) =
        let zero_lt : 0 < 256 = omega arith in
        (
          zero_lt,
          (
            zero_lt,
            (zero_lt, (zero_lt, (zero_lt, (zero_lt, (zero_lt, (zero_lt, all_bytes-IsBytes d e)))))),
          ),
        ) in
      subst IsBytes same bytes;
  le-length-encrypt = λ seed d m h.
      let same = (encrypt_some (codes "public") seed d m h).1 in omega (arith, ap length same);
}

-- The metadata of the file, as a text that the ciphers of the tests read.
abbrev file_metadata : Bytes
file_metadata =
    plain_ciphers.base64_encode
      (openssl_salt_prefix ++ (codes "saltsalt" ++ (replicate 16 0 ++ codes "{}")))

abbrev pub default_folder : FolderData two_uuids
default_folder = record { uuid = true; name_metadata = codes "default"; parent = base }

abbrev pub photo_data : FileData two_uuids
photo_data = record {
  uuid = false;
  storage = record { bucket = codes "b"; region = codes "r"; chunks = 1 };
  name_metadata = codes "n";
  size_metadata = codes "s";
  mime_metadata = codes "m";
  parent = true;
  metadata = file_metadata;
  version = 2;
}

abbrev pub contents : DownloadDirResponseData two_uuids
contents = record { folders = default_folder ∷ []; files = photo_data ∷ [] }

abbrev pub response : ResponsePayload (DownloadDirResponseData two_uuids)
response = record { status = true; message = none; data_ = some contents }

-- A server that lists that content.
abbrev pub listing_server : (W : Type 0) → DirIo two_uuids W
listing_server W = record { QueryError = ℕ; download_dir = λ payload w. returns (ok response, w) }
