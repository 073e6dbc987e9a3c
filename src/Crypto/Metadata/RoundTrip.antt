-- ===== src/Crypto/Metadata/RoundTrip.antt =====
-- Metadata of src/crypto.rs is decrypted to what was encrypted.
use rust_filen.Base.{
  ℕ, ◌<◌, ◌≡◌, ◌⊎◌, refl, ◌∙◌, ap, [], ◌∷◌, ◌++◌, Option, none, some, true, ok, arith, length,
  All-append, Bool-cases, Result-cases, inl, inr, ◌==◌, map_ok,
}
use rust_filen.Base.Fallible.{◌>>=◌}
use rust_filen.Base.Text.{Bytes, codes}
use rust_filen.Base.Int.{pos}
use rust_filen.Base.Decimal.{parse_signed, decimal}
use rust_filen.Base.Utf8.{is_utf8, IsAscii-is_utf8}
use rust_filen.Crypto.Primitives.{
  Ciphers, IsCiphers, IsBytes, IsAscii, openssl_salt_prefix, openssl_salt_prefix_base64,
  openssl_salt_length, aes_gcm_iv_length, cannot_decode_base64,
}
use rust_filen.Crypto.Aes.{
  or_err, encrypt_aes_openssl, decrypt_aes_openssl, encrypt_aes_gcm, encrypt_aes_gcm_base64,
}
use rust_filen.Crypto.Aes.RoundTrip.{
  openssl_body, encrypt_aes_gcm_base64-inv, encrypt_aes_openssl-body, decrypt_aes_openssl-body,
  decrypt_aes_gcm_base64-append,
}
use rust_filen.Crypto.Metadata.{
  Draws, version_mark, encrypt_versioned, encrypt_metadata, read_metadata_version,
  decrypt_versioned, decrypt_metadata, encrypt_metadata_str, decrypt_metadata_str,
}

-- A salt of eight bytes and an IV of twelve ASCII characters.
pub record IsDrawn (draws : Draws) : Type 0 where
  pub length_salt : length draws.salt ≡ openssl_salt_length
  pub salt-IsBytes : IsBytes draws.salt
  pub length_iv : length draws.iv ≡ aes_gcm_iv_length
  pub iv-IsAscii : IsAscii draws.iv

read_base64_salted :
    (rest : Bytes) → read_metadata_version (openssl_salt_prefix_base64 ++ rest) ≡ ok (pos 1)
unfolding read_metadata_version
read_base64_salted rest = ground arith

read_mark_2 : (rest : Bytes) → read_metadata_version (codes "002" ++ rest) ≡ ok (pos 2)
unfolding read_metadata_version parse_signed
read_mark_2 rest = ground arith

encrypt_metadata-inv :
    (c : Ciphers) (text key m : Bytes) (version : ℕ) (draws : Draws)
    → encrypt_metadata c text key version draws ≡ ok m
    → ((text ≡ []) × (m ≡ []))
      ⊎ ((map_ok c.base64_encode (encrypt_aes_openssl c text key none draws.salt) ≡ ok m)
          ⊎ (map_ok (λ b. version_mark 2 ++ b) (encrypt_aes_gcm_base64 c text key draws.iv) ≡ ok m))
unfolding encrypt_metadata encrypt_versioned
encrypt_metadata-inv c [] key m version draws h = inl (refl, cc)
encrypt_metadata-inv c (b ∷ text) key m version draws h = elim (Bool-cases (version == 1)) [
  | inl one ↦ inr (inl (rw one at h))
  | inr other ↦ elim (Bool-cases (version == 2)) [
    | inl two ↦ let e : version ≡ 2 = ground arith in inr (inr (rw e at h))
    | inr bad ↦ absurd (ground arith)
  ]
]

module _ (c : Ciphers) (lawful : IsCiphers c) (text key : Bytes) where
  decrypt_base64_salted :
      (rest m : Bytes)
      → c.base64_decode (openssl_salt_prefix_base64 ++ rest) ≡ some m
      → decrypt_metadata c (openssl_salt_prefix_base64 ++ rest) key ≡ decrypt_aes_openssl c m key
  unfolding decrypt_metadata decrypt_versioned
  decrypt_base64_salted rest m e = rw (read_base64_salted rest) (
      ap
        (λ (d : Option Bytes).
          or_err cannot_decode_base64 d >>= (λ decoded. decrypt_aes_openssl c decoded key))
        e)

  -- What version 1 encrypts to.
  abbrev pub salted : Bytes → Bytes
  salted salt = openssl_salt_prefix ++ (salt ++ openssl_body c text key salt)

  decrypt_salted :
      (salt : Bytes)
      → IsBytes text
      → length salt ≡ openssl_salt_length
      → IsBytes salt
      → decrypt_metadata c (c.base64_encode (salted salt)) key ≡ ok text
  decrypt_salted salt tb e sb =
      let body = openssl_body c text key salt in
      let bytes : IsBytes (salt ++ body) =
        All-append (λ b. b < 256) salt body sb (lawful.cbc_encrypt-IsBytes _ _ text tb) in
      let (rest, shape) = lawful.base64_encode_salted (salt ++ body) bytes in
      let decoded =
        lawful.base64_decode-base64_encode (salted salt)
          (All-append (λ b. b < 256) openssl_salt_prefix (salt ++ body) (omega arith) bytes) in
      rw shape (decrypt_base64_salted rest (salted salt) (rw shape at decoded))
      ∙ decrypt_aes_openssl-body c lawful text key salt e

  decrypt_marked :
      (iv encrypted : Bytes)
      → length iv ≡ aes_gcm_iv_length
      → IsBytes text
      → encrypt_aes_gcm c text key iv ≡ ok (iv, encrypted)
      → decrypt_metadata c (codes "002" ++ (iv ++ c.base64_encode encrypted)) key ≡ ok text
  unfolding decrypt_metadata decrypt_versioned
  decrypt_marked iv encrypted e tb h =
      rw (read_mark_2 (iv ++ c.base64_encode encrypted))
        (decrypt_aes_gcm_base64-append c lawful text key iv encrypted e tb h)

  pub salted-IsBytes : (salt : Bytes) → IsBytes text → IsBytes salt → IsBytes (salted salt)
  salted-IsBytes salt tb sb =
      All-append (λ b. b < 256) openssl_salt_prefix (salt ++ openssl_body c text key salt)
        (omega arith) (All-append (λ b. b < 256) salt _ sb (lawful.cbc_encrypt-IsBytes _ _ text tb))

  module _ (draws : Draws) (drawn : IsDrawn draws) (tb : IsBytes text) where
    version_1 :
        (m : Bytes)
        → map_ok c.base64_encode (encrypt_aes_openssl c text key none draws.salt) ≡ ok m
        → decrypt_metadata c m key ≡ ok text
    version_1 m h =
        let e : c.base64_encode (salted draws.salt) ≡ m =
          cc (h, encrypt_aes_openssl-body c text key none draws.salt) in
        rw (← e) (decrypt_salted draws.salt tb drawn.length_salt drawn.salt-IsBytes)

    version_2 :
        (m : Bytes)
        → map_ok (λ b. version_mark 2 ++ b) (encrypt_aes_gcm_base64 c text key draws.iv) ≡ ok m
        → decrypt_metadata c m key ≡ ok text
    unfolding decimal
    version_2 m h = elim (Result-cases (encrypt_aes_gcm_base64 c text key draws.iv)) [
      | inl (b, found) ↦
          let (encrypted, made, shape) = encrypt_aes_gcm_base64-inv c text key draws.iv b found in
          let e : codes "002" ++ (draws.iv ++ c.base64_encode encrypted) ≡ m =
            cc (h, found, shape) in
          rw (← e) (decrypt_marked draws.iv encrypted drawn.length_iv tb made)
      | inr (x, failed) ↦ absurd (cc (h, failed))
    ]

    pub decrypt-encrypt :
        (version : ℕ) (m : Bytes)
        → encrypt_metadata c text key version draws ≡ ok m
        → decrypt_metadata c m key ≡ ok text
    decrypt-encrypt version m h = elim (encrypt_metadata-inv c text key m version draws h) [
      | inl (no_text, no_mark) ↦ rw (no_mark, no_text) (unfold decrypt_metadata in refl)
      | inr (inl made) ↦ version_1 m made
      | inr (inr made) ↦ version_2 m made
    ]

pub encrypt_metadata_1 :
    (c : Ciphers)
    → IsCiphers c
    → (text key : Bytes) (draws : Draws) → IsDrawn draws
    → IsBytes text
    → (m : Bytes) × (encrypt_metadata c text key 1 draws ≡ ok m) × IsAscii m
unfolding encrypt_metadata encrypt_versioned
encrypt_metadata_1 c lawful [] key draws drawn tb = ([], refl, tt)
encrypt_metadata_1 c lawful (b ∷ text) key draws drawn tb =
    let m = salted c lawful (b ∷ text) key draws.salt in
    (
      c.base64_encode m,
      ap (map_ok c.base64_encode) (encrypt_aes_openssl-body c (b ∷ text) key none draws.salt),
      lawful.base64_encode-IsAscii m
          (salted-IsBytes c lawful (b ∷ text) key draws.salt tb drawn.salt-IsBytes),
    )

-- Metadata that was encrypted, under whichever version encryption accepts, is decrypted with the same
-- key to the same data, the empty data included. Stated for bytes, for a salt of eight bytes and an IV
-- of twelve ASCII characters, and for ciphers that keep their documented promises.
pub decrypt_metadata-encrypt_metadata :
    (c : Ciphers)
    → IsCiphers c
    → (text key : Bytes) (version : ℕ) (draws : Draws) (m : Bytes) → IsDrawn draws
    → IsBytes text
    → encrypt_metadata c text key version draws ≡ ok m
    → decrypt_metadata c m key ≡ ok text
decrypt_metadata-encrypt_metadata c lawful text key version draws m drawn tb h =
    decrypt-encrypt c lawful text key draws drawn tb version m h

-- Under the version that the library encrypts with, 1, `encrypt_metadata_str` always succeeds, so the
-- calls of `unwrap` on it never panic; and `decrypt_metadata_str` gives the text back with the same
-- key. Stated for a UTF-8 text, a drawn salt of eight bytes, and ciphers that keep their promises.
pub encrypt_metadata_str-total :
    (c : Ciphers)
    → IsCiphers c
    → (text key : Bytes) (draws : Draws) → IsDrawn draws
    → IsBytes text
    → is_utf8 text ≡ true
    → (m : Bytes) × (encrypt_metadata_str c text key 1 draws ≡ ok m)
      × (decrypt_metadata_str c m key ≡ ok text)
unfolding encrypt_metadata_str decrypt_metadata_str
encrypt_metadata_str-total c lawful text key draws drawn tb utf8 =
    let (m, made, ascii) = encrypt_metadata_1 c lawful text key draws drawn tb in
    let plain = decrypt_metadata-encrypt_metadata c lawful text key 1 draws m drawn tb made in
    (m, rw (made, IsAscii-is_utf8 m ascii), rw (plain, utf8))
