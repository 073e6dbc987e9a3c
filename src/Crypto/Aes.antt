-- ===== src/Crypto/Aes.antt =====
-- AES in src/crypto.rs: the OpenSSL-compatible framing of AES-CBC, and AES-GCM with its IV in front.
pub mod RoundTrip
use rust_filen.Base.{
  ℕ, ◌+◌, ◌≡◌, List, [], ◌∷◌, ◌++◌, Option, none, some, Bool, Result, ok, err, ltb, leb, ◌==◌,
  if◌then◌else◌, length, take, drop, replicate, ensure, map_ok,
}
use rust_filen.Base.Fallible.{◌>>=◌, ◌>>◌}
use rust_filen.Base.Text.{Bytes, bytes_eq}
use rust_filen.Base.Utf8.{encode_char}
use mathlib.Core.List.{flat_map}
use rust_filen.Crypto.Primitives.{
  Ciphers, CryptoError, bad_argument, aes_cbc_cannot_decipher_data, aes_gcm_cannot_decipher_data,
  aes_gcm_cannot_cipher_data, cannot_decode_base64, openssl_salt_prefix, openssl_salt_length,
  aes_cbc_iv_length, aes_cbc_key_length, aes_gcm_iv_length,
}

-- `utils::bytes_to_binary_string`: each byte as the character with its code.
unfoldable pub bytes_to_binary_string : Bytes → Bytes
unfolding flat_map
bytes_to_binary_string = flat_map encode_char

-- `ok_or` on what another crate returns.
abbrev pub or_err : {A : Type 0} → CryptoError → Option A → Result A CryptoError
or_err e none = err e
or_err e (some a) = ok a

-- `bytes.try_into().unwrap_or([0; n])`
abbrev pub sized : ℕ → Bytes → Bytes
sized n bytes = if length bytes == n then bytes else replicate n 0

module _ (c : Ciphers) where
  unfoldable pub generate_aes_key_and_iv : ℕ → ℕ → ℕ → Option Bytes → Bytes → Bytes × Bytes
  generate_aes_key_and_iv key_length iv_length iterations maybe_salt password =
      let salt : Bytes = elim maybe_salt [ none ↦ [] | some s ↦ s ] in
      let output = c.evp_kdf (key_length + iv_length) password salt iterations in
      (take key_length output, drop key_length output)

  -- `maybe_salt` if it has the right length, and otherwise `drawn`, eight random bytes.
  abbrev pub salt_or : Option Bytes → Bytes → Bytes
  salt_or none drawn = drawn
  salt_or (some user_salt) drawn =
      if length user_salt == openssl_salt_length then user_salt else drawn

  abbrev pub encrypt_aes_cbc_with_key_and_iv : Bytes → Bytes → Bytes → Result Bytes CryptoError
  encrypt_aes_cbc_with_key_and_iv data_ key iv = ok (c.cbc_encrypt key iv data_)

  abbrev pub decrypt_aes_cbc_with_key_and_iv : Bytes → Bytes → Bytes → Result Bytes CryptoError
  decrypt_aes_cbc_with_key_and_iv encrypted key iv =
      or_err aes_cbc_cannot_decipher_data (c.cbc_decrypt key iv encrypted)

  -- The last argument holds the random bytes that a missing salt is filled with.
  unfoldable pub encrypt_aes_openssl :
      Bytes → Bytes → Option Bytes → Bytes → Result Bytes CryptoError
  encrypt_aes_openssl text key maybe_salt drawn = do
    let salt = salt_or maybe_salt drawn
    let (aes_key, iv) =
        generate_aes_key_and_iv aes_cbc_key_length aes_cbc_iv_length 1 (some salt) key
    encrypted ←
        encrypt_aes_cbc_with_key_and_iv text (sized aes_cbc_key_length aes_key)
          (sized aes_cbc_iv_length iv)
    ok (openssl_salt_prefix ++ (salt ++ encrypted))

  -- `salt_and_message_from_aes_openssl_encrypted_data`
  unfoldable pub salt_and_message : Bytes → ℕ → Result (Bytes × Bytes) CryptoError
  salt_and_message encrypted salt_length = do
    let message_index = length openssl_salt_prefix + salt_length
    ensure (leb message_index (length encrypted))
        (bad_argument "encrypted data is too small to contain OpenSSL-compatible salt")
    let salt_with_prefix = take message_index encrypted
    ensure (bytes_eq (take (length openssl_salt_prefix) salt_with_prefix) openssl_salt_prefix)
        (bad_argument "encrypted data does not contain OpenSSL salt prefix")
    ok (drop (length openssl_salt_prefix) salt_with_prefix, drop message_index encrypted)

  unfoldable pub decrypt_aes_openssl : Bytes → Bytes → Result Bytes CryptoError
  decrypt_aes_openssl encrypted key = do
    (salt, message) ← salt_and_message encrypted openssl_salt_length
    let (aes_key, iv) =
        generate_aes_key_and_iv aes_cbc_key_length aes_cbc_iv_length 1 (some salt) key
    decrypt_aes_cbc_with_key_and_iv message (sized aes_cbc_key_length aes_key)
        (sized aes_cbc_iv_length iv)

  -- `derive_key_from_password_generic` on a buffer of `n` bytes.
  unfoldable pub derive_key_from_password : ℕ → Bytes → Bytes → ℕ → Bytes
  derive_key_from_password n password salt iterations =
      c.pbkdf2 n password salt (if iterations == 0 then 200000 else iterations)

  -- `derive_key_from_password_512` and `derive_key_from_password_256`
  unfoldable pub derive_key_from_password_512 : Bytes → Bytes → ℕ → Bytes
  unfolding derive_key_from_password
  derive_key_from_password_512 = derive_key_from_password 64

  unfoldable pub derive_key_from_password_256 : Bytes → Bytes → ℕ → Bytes
  unfolding derive_key_from_password
  derive_key_from_password_256 = derive_key_from_password 32

  -- `iv` is the random alphanumeric text of twelve characters that the function draws.
  unfoldable pub encrypt_aes_gcm : Bytes → Bytes → Bytes → Result (Bytes × Bytes) CryptoError
  encrypt_aes_gcm text key iv = do
    let derived_key = derive_key_from_password_256 key key 1
    encrypted ←
        or_err (aes_gcm_cannot_cipher_data (length text)) (c.gcm_encrypt derived_key iv text)
    ok (iv, encrypted)

  unfoldable pub encrypt_aes_gcm_base64 : Bytes → Bytes → Bytes → Result Bytes CryptoError
  encrypt_aes_gcm_base64 text key drawn = do
    (iv, encrypted) ← encrypt_aes_gcm text key drawn
    ok (iv ++ c.base64_encode encrypted)

  unfoldable pub encrypt_aes_gcm_bstr : Bytes → Bytes → Bytes → Result Bytes CryptoError
  encrypt_aes_gcm_bstr text key drawn = do
    (iv, encrypted) ← encrypt_aes_gcm text key drawn
    ok (iv ++ bytes_to_binary_string encrypted)

  unfoldable pub extract_aes_gcm_iv_and_message : Bytes → Result (Bytes × Bytes) CryptoError
  extract_aes_gcm_iv_and_message encrypted = do
    ensure (ltb aes_gcm_iv_length (length encrypted))
        (bad_argument "encrypted data is too small to contain AES GCM IV")
    ok (take aes_gcm_iv_length encrypted, drop aes_gcm_iv_length encrypted)

  unfoldable pub decrypt_aes_gcm_from_iv_and_bytes :
      Bytes → Bytes → Bytes → Result Bytes CryptoError
  decrypt_aes_gcm_from_iv_and_bytes key iv encrypted =
      or_err aes_gcm_cannot_decipher_data
        (c.gcm_decrypt (derive_key_from_password_256 key key 1) iv encrypted)

  unfoldable pub decrypt_aes_gcm_base64 : Bytes → Bytes → Result Bytes CryptoError
  decrypt_aes_gcm_base64 text key = do
    (iv, encrypted_base64) ← extract_aes_gcm_iv_and_message text
    encrypted ← or_err cannot_decode_base64 (c.base64_decode encrypted_base64)
    decrypt_aes_gcm_from_iv_and_bytes key iv encrypted

  unfoldable pub decrypt_aes_gcm : Bytes → Bytes → Result Bytes CryptoError
  decrypt_aes_gcm text key = do
    (iv, encrypted) ← extract_aes_gcm_iv_and_message text
    decrypt_aes_gcm_from_iv_and_bytes key iv encrypted
