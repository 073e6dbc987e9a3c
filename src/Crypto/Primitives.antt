-- ===== src/Crypto/Primitives.antt =====
-- What src/crypto.rs takes from other crates, its error type and its constants. Each of those crates'
-- functions is deterministic; random bytes are arguments of the functions that draw them.
use Prim.Native.String.{String}
use rust_filen.Base.{ℕ, ◌≤◌, ◌<◌, ◌≡◌, ◌≢◌, [], ◌++◌, Option, some, length, All}
use rust_filen.Base.Int.{ℤ}
use rust_filen.Base.Text.{Bytes, codes}
use rust_filen.Base.Decimal.{ParseIntError}

-- `OPENSSL_SALT_PREFIX`, `OPENSSL_SALT_PREFIX_BASE64` and the lengths.
abbrev pub openssl_salt_prefix : Bytes
openssl_salt_prefix = codes "Salted__"

abbrev pub openssl_salt_prefix_base64 : Bytes
openssl_salt_prefix_base64 = codes "U2FsdGVk"

abbrev pub openssl_salt_length : ℕ
openssl_salt_length = 8

abbrev pub aes_cbc_iv_length : ℕ
aes_cbc_iv_length = 16

abbrev pub aes_cbc_key_length : ℕ
aes_cbc_key_length = 32

abbrev pub aes_gcm_iv_length : ℕ
aes_gcm_iv_length = 12

abbrev pub filen_version_length : ℕ
filen_version_length = 3

-- `crypto::Error`, without the sources that other crates give. A part that is
-- no version is kept as its bytes, where the source replaces what is not UTF-8 in it.
pub data CryptoError : Type 0 where
  aes_cbc_cannot_decipher_data : CryptoError
  aes_gcm_cannot_decipher_data : CryptoError
  aes_gcm_cannot_cipher_data : ℕ → CryptoError
  bad_argument : String → CryptoError
  cannot_decode_base64 : CryptoError
  cannot_parse_filen_metadata_version : Bytes → ParseIntError → CryptoError
  decrypted_metadata_is_not_utf8 : CryptoError
  encrypted_metadata_is_not_utf8 : CryptoError
  rsa_pkcs8_cannot_encrypt_data : CryptoError
  rsa_pkcs8_cannot_decrypt_data : CryptoError
  rsa_cannot_deserialize_private_key : CryptoError
  rsa_cannot_deserialize_public_key : CryptoError
  unsupported_filen_file_version : ℕ → CryptoError
  unsupported_filen_metadata_version : ℤ → CryptoError

-- `evp_kdf n password salt rounds` and `pbkdf2 n password salt rounds` fill `n` bytes; the ciphers
-- take key, IV or nonce, and data.
pub record Ciphers : Type 0 where
  pub evp_kdf : ℕ → Bytes → Bytes → ℕ → Bytes
  pub pbkdf2 : ℕ → Bytes → Bytes → ℕ → Bytes
  pub cbc_encrypt : Bytes → Bytes → Bytes → Bytes
  pub cbc_decrypt : Bytes → Bytes → Bytes → Option Bytes
  pub gcm_encrypt : Bytes → Bytes → Bytes → Option Bytes
  pub gcm_decrypt : Bytes → Bytes → Bytes → Option Bytes
  pub base64_encode : Bytes → Bytes
  pub base64_decode : Bytes → Option Bytes

abbrev pub IsBytes : Bytes → Type 0
IsBytes = All (λ c. c < 256)

abbrev pub IsAscii : Bytes → Type 0
IsAscii = All (λ c. c < 128)

-- What those crates document. `Salted` is two groups of three bytes, which base64 encodes each on its
-- own, as `U2Fs` and `dGVk`; its standard alphabet has no `_`.
pub record IsCiphers (c : Ciphers) : Type 0 where
  pub length-evp_kdf : (n : ℕ) (p s : Bytes) (k : ℕ) → length (c.evp_kdf n p s k) ≡ n
  pub cbc_decrypt-cbc_encrypt :
      (key iv d : Bytes) → c.cbc_decrypt key iv (c.cbc_encrypt key iv d) ≡ some d
  pub cbc_encrypt-IsBytes : (key iv d : Bytes) → IsBytes d → IsBytes (c.cbc_encrypt key iv d)
  pub le-length-cbc_encrypt : (key iv d : Bytes) → 16 ≤ length (c.cbc_encrypt key iv d)
  pub gcm_decrypt-gcm_encrypt :
      (key nonce d m : Bytes)
      → c.gcm_encrypt key nonce d ≡ some m
      → c.gcm_decrypt key nonce m ≡ some d
  pub gcm_encrypt-IsBytes :
      (key nonce d m : Bytes) → IsBytes d → c.gcm_encrypt key nonce d ≡ some m → IsBytes m
  pub gcm_encrypt-ne-nil : (key nonce d m : Bytes) → c.gcm_encrypt key nonce d ≡ some m → m ≢ []
  pub base64_decode-base64_encode :
      (d : Bytes) → IsBytes d → c.base64_decode (c.base64_encode d) ≡ some d
  pub base64_encode-IsAscii : (d : Bytes) → IsBytes d → IsAscii (c.base64_encode d)
  pub base64_encode-ne-nil : (d : Bytes) → d ≢ [] → c.base64_encode d ≢ []
  pub le-length-base64_encode : (d : Bytes) → length d ≤ length (c.base64_encode d)
  pub base64_encode_salted :
      (d : Bytes)
      → IsBytes d
      → (rest : Bytes) × (c.base64_encode (openssl_salt_prefix ++ d)
          ≡ openssl_salt_prefix_base64 ++ rest)
