-- ===== src/Crypto/Metadata/Marked.antt =====
-- What the callers of `encrypt_metadata_str` in src/v1 need: version 1, a text that is not empty, and
-- any of several keys.
use mathlib.Core.Path.{subst}
use rust_filen.Base.{
  ℕ, ◌<◌, ◌≡◌, ◌≢◌, refl, ◌∙◌, ap, List, [], ◌∷◌, ◌++◌, none, true, ok, map_ok, All, All-drop,
}
use rust_filen.Base.Text.{Bytes}
use rust_filen.Base.Utf8.{is_utf8, IsAscii-is_utf8}
use rust_filen.Crypto.Primitives.{Ciphers, IsCiphers, IsBytes, IsAscii, openssl_salt_prefix_base64}
use rust_filen.Crypto.Aes.RoundTrip.{openssl_body, encrypt_aes_openssl-body}
use rust_filen.Crypto.Metadata.{
  Draws, encrypt_versioned, encrypt_metadata, encrypt_metadata_str, decrypt_metadata_str_any_key,
}
use rust_filen.Crypto.Metadata.AnyKey.{Fails, decrypt_metadata_any_key-first}
use rust_filen.Crypto.Metadata.RoundTrip.{
  IsDrawn, salted, salted-IsBytes, decrypt_metadata-encrypt_metadata,
}

module _ (c : Ciphers) (lawful : IsCiphers c) (key : Bytes) (draws : Draws)
    (drawn : IsDrawn draws) where
  encrypt_metadata-marked :
      (b : ℕ) (text : Bytes)
      → IsBytes (b ∷ text)
      → (rest : Bytes) × (encrypt_metadata c (b ∷ text) key 1 draws
          ≡ ok (openssl_salt_prefix_base64 ++ rest))
        × IsAscii (openssl_salt_prefix_base64 ++ rest)
  unfolding encrypt_metadata encrypt_versioned
  encrypt_metadata-marked b text tb =
      let m = salted c lawful (b ∷ text) key draws.salt in
      let bytes = salted-IsBytes c lawful (b ∷ text) key draws.salt tb drawn.salt-IsBytes in
      let body = draws.salt ++ openssl_body c (b ∷ text) key draws.salt in
      let (rest, shape) = lawful.base64_encode_salted body (All-drop (λ x. x < 256) 8 m bytes) in
      (
        rest,
        ap (map_ok c.base64_encode) (encrypt_aes_openssl-body c (b ∷ text) key none draws.salt)
            ∙ ap ok shape,
        subst IsAscii shape (lawful.base64_encode-IsAscii m bytes),
      )

  -- A text that is not empty is encrypted, starts like base64 of an OpenSSL ciphertext, and is
  -- decrypted by its key, after keys that do not decrypt it, whatever keys follow.
  pub encrypt_metadata_str-any_key :
      (text : Bytes)
      → text ≢ []
      → IsBytes text
      → is_utf8 text ≡ true
      → (rest : Bytes) × (encrypt_metadata_str c text key 1 draws
          ≡ ok (openssl_salt_prefix_base64 ++ rest))
        × ((before after : List Bytes)
            → All (Fails c (openssl_salt_prefix_base64 ++ rest)) before
            → decrypt_metadata_str_any_key c
                (openssl_salt_prefix_base64 ++ rest)
                (before ++ key ∷ after)
              ≡ ok text)
  unfolding encrypt_metadata_str decrypt_metadata_str_any_key
  encrypt_metadata_str-any_key [] full tb utf8 = absurd (full refl)
  encrypt_metadata_str-any_key (b ∷ text) full tb utf8 =
      let (rest, made, ascii) = encrypt_metadata-marked b text tb in
      let m = openssl_salt_prefix_base64 ++ rest in
      let plain =
        decrypt_metadata-encrypt_metadata c lawful (b ∷ text) key 1 draws m drawn tb made in
      (
        rest,
        rw (made, IsAscii-is_utf8 m ascii) refl,
        λ before after fails.
            rw
              (
                decrypt_metadata_any_key-first c m before after key (b ∷ text) (λ e. cc e) fails
                    plain,
                utf8,
              )
              refl,
      )

  -- So it is where the key is the first.
  pub encrypt_metadata_str-marked :
      (text : Bytes)
      → text ≢ []
      → IsBytes text
      → is_utf8 text ≡ true
      → (rest : Bytes) × (encrypt_metadata_str c text key 1 draws
          ≡ ok (openssl_salt_prefix_base64 ++ rest))
        × ((keys : List Bytes)
            → decrypt_metadata_str_any_key c (openssl_salt_prefix_base64 ++ rest) (key ∷ keys)
              ≡ ok text)
  encrypt_metadata_str-marked text full tb utf8 =
      let (rest, made, plain) = encrypt_metadata_str-any_key text full tb utf8 in
      (rest, made, λ keys. plain [] keys tt)
