-- ===== src/Crypto/FileChunk.antt =====
-- The encryption of file chunks in src/crypto.rs. A chunk is encrypted to a text whose characters are
-- the encrypted bytes, and is decrypted from those bytes.
pub mod RoundTrip
use rust_filen.Base.{
  ℕ, ◌+◌, ◌≡◌, List, [], ◌∷◌, Result, ok, err, ltb, ◌==◌, if◌then◌else◌, length, take, is_empty,
  map_ok,
}
use rust_filen.Base.Fallible.{◌>>=◌}
use rust_filen.Base.Text.{Bytes, bytes_eq}
use rust_filen.Crypto.Primitives.{
  Ciphers, CryptoError, bad_argument, unsupported_filen_file_version, openssl_salt_prefix,
  openssl_salt_prefix_base64, aes_cbc_iv_length,
}
use rust_filen.Crypto.Aes.{
  bytes_to_binary_string, encrypt_aes_cbc_with_key_and_iv, decrypt_aes_cbc_with_key_and_iv,
  decrypt_aes_openssl, encrypt_aes_gcm_bstr, decrypt_aes_gcm,
}
use rust_filen.Crypto.Metadata.{get_prefix}

-- The first half of a key of 32 bytes; a shorter key has none.
unfoldable pub aes_cbc_iv_from_key : Bytes → Result Bytes CryptoError
aes_cbc_iv_from_key key =
    let iv = take aes_cbc_iv_length key in
    if length iv == aes_cbc_iv_length
    then ok iv
    else err (bad_argument "AES CBC key should have 32 bytes to extract IV")

module _ (c : Ciphers) where
  -- `iv` is the random text that AES-GCM draws.
  unfoldable pub encrypt_file_chunk : Bytes → Bytes → ℕ → Bytes → Result Bytes CryptoError
  encrypt_file_chunk chunk file_key version iv =
      if is_empty chunk
      then ok []
      else if version == 1
      then (do
        cbc_iv ← aes_cbc_iv_from_key file_key
        map_ok bytes_to_binary_string (encrypt_aes_cbc_with_key_and_iv c chunk file_key cbc_iv))
      else if version == 2
      then encrypt_aes_gcm_bstr c chunk file_key iv
      else err (unsupported_filen_file_version version)

  -- Version 1, of at least eight bytes.
  decrypt_chunk_v1 : Bytes → Bytes → Result Bytes CryptoError
  decrypt_chunk_v1 encrypted file_key =
      let possible_prefix = get_prefix (length openssl_salt_prefix) encrypted in
      if bytes_eq possible_prefix openssl_salt_prefix
      then decrypt_aes_openssl c (c.base64_encode encrypted) file_key
      else if bytes_eq possible_prefix openssl_salt_prefix_base64
      then decrypt_aes_openssl c (bytes_to_binary_string encrypted) file_key
      else (do
        iv ← aes_cbc_iv_from_key file_key
        decrypt_aes_cbc_with_key_and_iv c encrypted file_key iv)

  unfoldable pub decrypt_file_chunk : Bytes → Bytes → ℕ → Result Bytes CryptoError
  unfolding decrypt_chunk_v1
  decrypt_file_chunk encrypted file_key version =
      if version == 1
      then (if ltb (length encrypted) (length openssl_salt_prefix)
          then err (bad_argument "encrypted data is too short, < 8 bytes")
          else decrypt_chunk_v1 encrypted file_key)
      else if version == 2
      then decrypt_aes_gcm c encrypted file_key
      else err (unsupported_filen_file_version version)
