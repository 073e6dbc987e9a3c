-- ===== src/Crypto/Metadata.antt =====
-- Filen metadata in src/crypto.rs: one text under a key, marked with the version of its cipher.
pub mod RoundTrip
pub mod AnyKey
pub mod Marked
use rust_filen.Base.{
  ℕ, suc, ◌+◌, ◌≡◌, refl, List, [], ◌∷◌, ◌++◌, Option, none, some, Bool, true, false, not, Result,
  ok, err, ltb, leb, ◌==◌, if◌then◌else◌, length, take, drop, is_empty, ensure, is_ok, map_ok,
  map_err,
}
use rust_filen.Base.Fallible.{◌>>=◌, ◌>>◌}
use rust_filen.Base.Text.{Bytes, codes, bytes_eq}
use rust_filen.Base.Utf8.{is_utf8}
use rust_filen.Base.Int.{ℤ, pos, negsuc}
use rust_filen.Base.Decimal.{ParseIntError, decimal, parse_signed, i32_max}
use rust_filen.Crypto.Primitives.{
  Ciphers, CryptoError, bad_argument, cannot_decode_base64, cannot_parse_filen_metadata_version,
  decrypted_metadata_is_not_utf8, encrypted_metadata_is_not_utf8,
  unsupported_filen_metadata_version, openssl_salt_prefix, openssl_salt_prefix_base64,
  filen_version_length,
}
use rust_filen.Crypto.Aes.{
  or_err, encrypt_aes_openssl, decrypt_aes_openssl, encrypt_aes_gcm_base64, decrypt_aes_gcm_base64,
}

-- The random bytes that encryption draws: a salt or an IV, by version.
pub record Draws : Type 0 where
  pub salt : Bytes
  pub iv : Bytes

-- `slice.get(..n).unwrap_or_default()`
abbrev pub get_prefix : ℕ → Bytes → Bytes
get_prefix n s = if ltb (length s) n then [] else take n s

-- `slice.get(n..).unwrap_or_default()`
abbrev pub get_suffix : ℕ → Bytes → Bytes
get_suffix n s = drop n s

-- `format!("{:0>3}", version)`
abbrev pub version_mark : ℕ → Bytes
version_mark version =
    let digits = decimal version in
    if ltb (length digits) 2
    then b'0' ∷ b'0' ∷ digits
    else if ltb (length digits) 3
    then b'0' ∷ digits
    else digits

unfoldable pub read_metadata_version : Bytes → Result ℤ CryptoError
read_metadata_version text =
    let possible_salted_mark = get_prefix (length openssl_salt_prefix) text in
    let possible_version_mark = get_prefix filen_version_length text in
    if bytes_eq possible_salted_mark openssl_salt_prefix_base64
    then ok (pos 1)
    else if bytes_eq possible_salted_mark openssl_salt_prefix
    then ok (negsuc 0)
    else map_err (cannot_parse_filen_metadata_version possible_version_mark)
        (parse_signed i32_max possible_version_mark)

module _ (c : Ciphers) where
  -- The `match` on the version, for data that is not empty.
  encrypt_versioned : Bytes → Bytes → ℕ → Draws → Result Bytes CryptoError
  encrypt_versioned text key version draws =
      if version == 1
      then map_ok c.base64_encode (encrypt_aes_openssl c text key none draws.salt)
      else if version == 2
      then map_ok (λ m. version_mark version ++ m) (encrypt_aes_gcm_base64 c text key draws.iv)
      else err (unsupported_filen_metadata_version (pos version))

  unfoldable pub encrypt_metadata : Bytes → Bytes → ℕ → Draws → Result Bytes CryptoError
  unfolding encrypt_versioned
  encrypt_metadata text key version draws =
      if is_empty text then ok [] else encrypt_versioned text key version draws

  -- The `match` on the version read.
  decrypt_versioned : Bytes → Bytes → ℤ → Result Bytes CryptoError
  decrypt_versioned text key (negsuc n) =
      if n == 0
      then decrypt_aes_openssl c text key
      else err (unsupported_filen_metadata_version (negsuc n))
  decrypt_versioned text key (pos version) =
      if version == 1
      then or_err cannot_decode_base64 (c.base64_decode text)
        >>= (λ decoded. decrypt_aes_openssl c decoded key)
      else if version == 2
      then decrypt_aes_gcm_base64 c (get_suffix filen_version_length text) key
      else err (unsupported_filen_metadata_version (pos version))

  unfoldable pub decrypt_metadata : Bytes → Bytes → Result Bytes CryptoError
  unfolding decrypt_versioned
  decrypt_metadata text key =
      if is_empty text then ok [] else read_metadata_version text >>= decrypt_versioned text key

  -- The loop over the keys, with the result of the key before.
  try_keys : Bytes → List Bytes → Result Bytes CryptoError → Result Bytes CryptoError
  try_keys text [] result = result
  try_keys text (key ∷ keys) result =
      let attempt = decrypt_metadata text key in
      let rest = try_keys text keys attempt in if is_ok attempt then attempt else rest

  unfoldable pub decrypt_metadata_any_key : Bytes → List Bytes → Result Bytes CryptoError
  unfolding try_keys
  decrypt_metadata_any_key text keys = if is_empty text then ok [] else (do
    ensure (not (is_empty keys)) (bad_argument "keys for decrypting metadata cannot be empty")
    let result = try_keys text keys (ok [])
    if is_ok result then result else err (bad_argument "all given keys failed to decrypt metadata"))

  -- `String::from_utf8(bytes).context(…)`
  abbrev from_utf8 : CryptoError → Bytes → Result Bytes CryptoError
  from_utf8 e bytes = if is_utf8 bytes then ok bytes else err e

  unfoldable pub encrypt_metadata_str : Bytes → Bytes → ℕ → Draws → Result Bytes CryptoError
  encrypt_metadata_str text key version draws =
      encrypt_metadata text key version draws >>= from_utf8 encrypted_metadata_is_not_utf8

  unfoldable pub decrypt_metadata_str : Bytes → Bytes → Result Bytes CryptoError
  decrypt_metadata_str text key =
      decrypt_metadata text key >>= from_utf8 decrypted_metadata_is_not_utf8

  unfoldable pub decrypt_metadata_str_any_key : Bytes → List Bytes → Result Bytes CryptoError
  decrypt_metadata_str_any_key text keys =
      if is_empty text
      then ok []
      else decrypt_metadata_any_key text keys >>= from_utf8 decrypted_metadata_is_not_utf8

version_mark_2 : version_mark 2 ≡ codes "002"
unfolding decimal
version_mark_2 = refl
