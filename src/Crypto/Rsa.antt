-- ===== src/Crypto/Rsa.antt =====
-- RSA-OAEP in src/crypto.rs. The crate `rsa` is a parameter; the seed that the padding draws is an
-- argument.
use rust_filen.Base.{◌≤◌, ◌≡◌, refl, Option, some, none, Result, ok, length}
use rust_filen.Base.Text.{Bytes}
use rust_filen.Base.Fallible.{◌>>=◌}
use rust_filen.Crypto.Aes.{or_err}
use rust_filen.Crypto.Primitives.{
  CryptoError, IsBytes, rsa_pkcs8_cannot_encrypt_data, rsa_pkcs8_cannot_decrypt_data,
  rsa_cannot_deserialize_private_key, rsa_cannot_deserialize_public_key,
}

-- `RsaPublicKey::from_public_key_der`, `RsaPrivateKey::from_pkcs8_der`, and `encrypt key seed data`
-- and `decrypt key data` with OAEP and SHA-512.
pub record Rsa : Type 1 where
  pub RsaPublicKey : Type 0
  pub RsaPrivateKey : Type 0
  pub from_public_key_der : Bytes → Option RsaPublicKey
  pub from_pkcs8_der : Bytes → Option RsaPrivateKey
  pub encrypt : RsaPublicKey → Bytes → Bytes → Option Bytes
  pub decrypt : RsaPrivateKey → Bytes → Option Bytes

-- A public and a private key that the crate reads and that belong together: what the one encrypts, the
-- other decrypts. The result is as long as the modulus, which for OAEP with SHA-512 has more than 8
-- bytes.
pub record IsKeyPair (rsa : Rsa) (public_key private_key : Bytes) : Type 0 where
  pub public : rsa.RsaPublicKey
  pub private : rsa.RsaPrivateKey
  pub reads_public : rsa.from_public_key_der public_key ≡ some public
  pub reads_private : rsa.from_pkcs8_der private_key ≡ some private
  pub decrypt-encrypt :
      (seed d m : Bytes) → rsa.encrypt public seed d ≡ some m → rsa.decrypt private m ≡ some d
  pub encrypt-IsBytes : (seed d m : Bytes) → rsa.encrypt public seed d ≡ some m → IsBytes m
  pub le-length-encrypt : (seed d m : Bytes) → rsa.encrypt public seed d ≡ some m → 8 ≤ length m

module _ (rsa : Rsa) where
  unfoldable pub encrypt_rsa : Bytes → Bytes → Bytes → Result Bytes CryptoError
  encrypt_rsa text public_key seed = do
    key ← or_err rsa_cannot_deserialize_public_key (rsa.from_public_key_der public_key)
    or_err rsa_pkcs8_cannot_encrypt_data (rsa.encrypt key seed text)

  unfoldable pub decrypt_rsa : Bytes → Bytes → Result Bytes CryptoError
  decrypt_rsa text private_key = do
    key ← or_err rsa_cannot_deserialize_private_key (rsa.from_pkcs8_der private_key)
    or_err rsa_pkcs8_cannot_decrypt_data (rsa.decrypt key text)

  or_err-ok : (e : CryptoError) (o : Option Bytes) (m : Bytes) → or_err e o ≡ ok m → o ≡ some m
  or_err-ok e none m h = absurd (cc h)
  or_err-ok e (some b) m h = cc h

  -- What is encrypted is decrypted with the key that belongs to it.
  pub decrypt_rsa-encrypt_rsa :
      {public_key private_key : Bytes}
      → IsKeyPair rsa public_key private_key
      → (text seed m : Bytes) → encrypt_rsa text public_key seed ≡ ok m
      → (decrypt_rsa m private_key ≡ ok text) × IsBytes m × (8 ≤ length m)
  unfolding encrypt_rsa decrypt_rsa
  decrypt_rsa-encrypt_rsa pair text seed m h =
      let made =
        or_err-ok rsa_pkcs8_cannot_encrypt_data (rsa.encrypt pair.public seed text) m
          (rw (pair.reads_public, or_err, ◌>>=◌) at h) in
      (
        rw (pair.reads_private, pair.decrypt-encrypt seed text m made) refl,
        pair.encrypt-IsBytes seed text m made,
        pair.le-length-encrypt seed text m made,
      )
