-- ===== src/Crypto/Aes/RoundTrip.antt =====
-- The AES functions of src/crypto.rs undo one another.
use rust_filen.Base.{
  ◌≤◌, ◌<◌, ◌≡◌, ◌≢◌, refl, ap, [], ◌∷◌, ◌++◌, Option, none, some, ok, length, take-append_of,
  drop-append_of, length-append, le→leb, lt→ltb, arith, Option-cases, inl, inr,
}
use rust_filen.Base.Text.{Bytes}
use rust_filen.Crypto.Primitives.{
  Ciphers, IsCiphers, aes_cbc_cannot_decipher_data, IsBytes, openssl_salt_prefix,
  openssl_salt_length, aes_cbc_iv_length, aes_cbc_key_length, aes_gcm_iv_length,
}
use rust_filen.Crypto.Aes.{
  salt_or, sized, or_err, generate_aes_key_and_iv, encrypt_aes_openssl, salt_and_message,
  decrypt_aes_openssl, derive_key_from_password_256, encrypt_aes_gcm, encrypt_aes_gcm_base64,
  encrypt_aes_gcm_bstr, bytes_to_binary_string, extract_aes_gcm_iv_and_message,
  decrypt_aes_gcm_from_iv_and_bytes, decrypt_aes_gcm_base64, decrypt_aes_gcm,
}

module _ (c : Ciphers) where
  salt_and_message-append :
      (salt message : Bytes)
      → length salt ≡ openssl_salt_length
      → salt_and_message c (openssl_salt_prefix ++ (salt ++ message)) openssl_salt_length
        ≡ ok (salt, message)
  unfolding salt_and_message
  salt_and_message-append salt message e =
      let long : 16 ≤ length (openssl_salt_prefix ++ (salt ++ message)) =
        omega (arith, length-append salt message) in
      rw (
        le→leb 16 (length (openssl_salt_prefix ++ (salt ++ message))) long,
        take-append_of 8 salt message e,
        drop-append_of 8 salt message e,
      )

  -- The ciphertext behind prefix and salt.
  abbrev pub openssl_body : Bytes → Bytes → Bytes → Bytes
  openssl_body text key salt =
      let (aes_key, iv) =
        generate_aes_key_and_iv c aes_cbc_key_length aes_cbc_iv_length 1 (some salt) key in
      c.cbc_encrypt (sized aes_cbc_key_length aes_key) (sized aes_cbc_iv_length iv) text

  length-salt_or :
      (maybe_salt : Option Bytes) (drawn : Bytes)
      → length drawn ≡ openssl_salt_length
      → length (salt_or c maybe_salt drawn) ≡ openssl_salt_length
  length-salt_or none drawn e = e
  length-salt_or (some user_salt) drawn e = ground arith

  pub encrypt_aes_openssl-body :
      (text key : Bytes) (maybe_salt : Option Bytes) (drawn : Bytes)
      → encrypt_aes_openssl c text key maybe_salt drawn
        ≡ ok (
            openssl_salt_prefix
            ++ (salt_or c maybe_salt drawn ++ openssl_body text key (salt_or c maybe_salt drawn)))
  unfolding encrypt_aes_openssl
  encrypt_aes_openssl-body text key maybe_salt drawn = refl

  pub decrypt_aes_openssl-body :
      IsCiphers c
      → (text key salt : Bytes) → length salt ≡ openssl_salt_length
      → decrypt_aes_openssl c (openssl_salt_prefix ++ (salt ++ openssl_body text key salt)) key
        ≡ ok text
  unfolding decrypt_aes_openssl
  decrypt_aes_openssl-body lawful text key salt e =
      rw (salt_and_message-append salt (openssl_body text key salt) e)
        (ap (or_err aes_cbc_cannot_decipher_data) (lawful.cbc_decrypt-cbc_encrypt _ _ text))

  -- The OpenSSL framing is undone with the same key, whatever salt was given or drawn.
  pub decrypt_aes_openssl-encrypt_aes_openssl :
      IsCiphers c
      → (text key : Bytes) (maybe_salt : Option Bytes) (drawn : Bytes)
      → length drawn ≡ openssl_salt_length
      → (m : Bytes) × (encrypt_aes_openssl c text key maybe_salt drawn ≡ ok m)
        × (decrypt_aes_openssl c m key ≡ ok text)
  decrypt_aes_openssl-encrypt_aes_openssl lawful text key maybe_salt drawn e =
      let salt = salt_or c maybe_salt drawn in
      (
        openssl_salt_prefix ++ (salt ++ openssl_body text key salt),
        encrypt_aes_openssl-body text key maybe_salt drawn,
        decrypt_aes_openssl-body lawful text key salt (length-salt_or maybe_salt drawn e),
      )

  extract-append :
      (iv message : Bytes)
      → length iv ≡ aes_gcm_iv_length
      → message ≢ []
      → extract_aes_gcm_iv_and_message c (iv ++ message) ≡ ok (iv, message)
  unfolding extract_aes_gcm_iv_and_message
  extract-append iv [] e h = absurd (h refl)
  extract-append iv (b ∷ message) e h =
      let long : 12 < length (iv ++ b ∷ message) = omega (arith, length-append iv (b ∷ message)) in
      rw (
        lt→ltb 12 (length (iv ++ b ∷ message)) long,
        take-append_of 12 iv (b ∷ message) e,
        drop-append_of 12 iv (b ∷ message) e,
      )

  module _ (lawful : IsCiphers c) (text key iv encrypted : Bytes) where
    -- A ciphertext as `encrypt_aes_gcm` returns it.
    abbrev pub Encrypts : Type 0
    Encrypts = encrypt_aes_gcm c text key iv ≡ ok (iv, encrypted)

    pub gcm_encrypt-some :
        Encrypts → c.gcm_encrypt (derive_key_from_password_256 c key key 1) iv text ≡ some encrypted
    unfolding encrypt_aes_gcm
    gcm_encrypt-some h = ground arith

    -- With its IV of twelve bytes in front, a ciphertext is deciphered with the same key.
    pub decrypt_aes_gcm-append :
        length iv ≡ aes_gcm_iv_length → Encrypts → decrypt_aes_gcm c (iv ++ encrypted) key ≡ ok text
    unfolding decrypt_aes_gcm decrypt_aes_gcm_from_iv_and_bytes
    decrypt_aes_gcm-append e h =
        rw (extract-append iv encrypted e (lawful.gcm_encrypt-ne-nil _ _ _ _ (gcm_encrypt-some h)))
          (rw (lawful.gcm_decrypt-gcm_encrypt _ _ _ _ (gcm_encrypt-some h)))

    pub decrypt_aes_gcm_base64-append :
        length iv ≡ aes_gcm_iv_length
        → IsBytes text
        → Encrypts
        → decrypt_aes_gcm_base64 c (iv ++ c.base64_encode encrypted) key ≡ ok text
    unfolding decrypt_aes_gcm_base64 decrypt_aes_gcm_from_iv_and_bytes
    decrypt_aes_gcm_base64-append e bytes h =
        let found = gcm_encrypt-some h in
        let full = lawful.gcm_encrypt-ne-nil _ _ _ _ found in
        rw
          (
            extract-append iv (c.base64_encode encrypted) e
                (lawful.base64_encode-ne-nil encrypted full),
            lawful.base64_decode-base64_encode encrypted
                (lawful.gcm_encrypt-IsBytes _ _ _ _ bytes found),
          )
          (rw (lawful.gcm_decrypt-gcm_encrypt _ _ _ _ found))

  -- What a successful encryption went through.
  module _ (text key iv m : Bytes) where
    pub encrypt_aes_gcm_base64-inv :
        encrypt_aes_gcm_base64 c text key iv ≡ ok m
        → (encrypted : Bytes) × (encrypt_aes_gcm c text key iv ≡ ok (iv, encrypted))
          × (iv ++ c.base64_encode encrypted ≡ m)
    unfolding encrypt_aes_gcm_base64 encrypt_aes_gcm
    encrypt_aes_gcm_base64-inv h =
        elim (Option-cases (c.gcm_encrypt (derive_key_from_password_256 c key key 1) iv text)) [
          | inl e ↦ absurd (ground arith)
          | inr (encrypted, e) ↦ (encrypted, ground arith, ground arith)
        ]

    pub encrypt_aes_gcm_bstr-inv :
        encrypt_aes_gcm_bstr c text key iv ≡ ok m
        → (encrypted : Bytes) × (encrypt_aes_gcm c text key iv ≡ ok (iv, encrypted))
          × (iv ++ bytes_to_binary_string encrypted ≡ m)
    unfolding encrypt_aes_gcm_bstr encrypt_aes_gcm
    encrypt_aes_gcm_bstr-inv h =
        elim (Option-cases (c.gcm_encrypt (derive_key_from_password_256 c key key 1) iv text)) [
          | inl e ↦ absurd (ground arith)
          | inr (encrypted, e) ↦ (encrypted, ground arith, ground arith)
        ]
