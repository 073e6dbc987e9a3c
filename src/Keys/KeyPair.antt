-- ===== src/Keys/KeyPair.antt =====
-- `UserKeyPairUpdateRequestPayload` of src/v1/user_keys.rs: a key pair that is stored with the servers and read
-- back.
use mathlib.Core.Path.{subst}
use rust_filen.Base.{
  ◌<◌, ◌≡◌, ◌≢◌, refl, sym, List, [], ◌∷◌, ◌++◌, some, Result, ok, map_err, All, All-imp, arith,
}
use rust_filen.Base.Text.{Bytes}
use rust_filen.Base.Utf8.{IsAscii-is_utf8}
use rust_filen.Base.Fallible.{◌>>=◌}
use rust_filen.Crypto.Primitives.{Ciphers, IsCiphers, IsBytes, openssl_salt_prefix_base64}
use rust_filen.Crypto.Metadata.{Draws, encrypt_metadata_str}
use rust_filen.Crypto.Metadata.AnyKey.{Fails}
use rust_filen.Crypto.Metadata.Marked.{encrypt_metadata_str-any_key}
use rust_filen.Crypto.Metadata.RoundTrip.{IsDrawn}
use rust_filen.Crypto.MasterKeys.{decrypt_private_key_metadata}
use rust_filen.Files.{metadata_version}
use rust_filen.Keys.{
  UserKeysError, encrypt_private_key_failed, UserKeyPairInfoResponseData, decrypt_private_key,
  decode_public_key, info_private_key, info_public_key,
}

pub record UserKeyPairUpdateRequestPayload : Type 0 where
  pub api_key : Bytes
  pub private_key : Bytes
  pub public_key : Bytes

-- `UserKeyPairUpdateRequestPayload::new`
unfoldable pub new :
    (c : Ciphers) {Q : Type 0} (api_key private_key_bytes public_key_bytes last_master_key : Bytes)
    → Draws
    → Result UserKeyPairUpdateRequestPayload (UserKeysError Q)
new c api_key private_key_bytes public_key_bytes last_master_key draws = do
  private_key ← map_err encrypt_private_key_failed (
      encrypt_metadata_str c (c.base64_encode private_key_bytes) last_master_key metadata_version
        draws)
  ok (record {
    api_key = api_key;
    private_key = private_key;
    public_key = c.base64_encode public_key_bytes;
  })

-- What the servers give back of a stored key pair.
abbrev pub stored : UserKeyPairUpdateRequestPayload → UserKeyPairInfoResponseData
stored payload = record {
  public_key = some payload.public_key;
  private_key_metadata = some payload.private_key;
}

-- What the servers keep of a key pair that was made ready to be stored gives both keys back: the
-- public one as it is, the private one with master keys among which the last one is, wherever
-- the keys before it do not decrypt the metadata. Stated for keys of bytes, the private one not
-- empty, and for the ciphers and draws of the metadata.
pub decrypt_private_key-new :
    (c : Ciphers)
    → IsCiphers c
    → {Q : Type 0} (api_key private_key_bytes public_key_bytes last_master_key : Bytes)
      (draws : Draws)
    → IsDrawn draws
    → private_key_bytes ≢ []
    → IsBytes private_key_bytes
    → IsBytes public_key_bytes
    → (payload : UserKeyPairUpdateRequestPayload)
    → new c {Q = Q} api_key private_key_bytes public_key_bytes last_master_key draws ≡ ok payload
    → (before after : List Bytes) → All (Fails c payload.private_key) before
    → (decrypt_private_key c {Q = Q} (stored payload) (before ++ last_master_key ∷ after)
        ≡ ok private_key_bytes)
      × (decode_public_key c {Q = Q} (stored payload) ≡ ok public_key_bytes)
unfolding new decrypt_private_key decode_public_key decrypt_private_key_metadata
decrypt_private_key-new c lawful api_key private public last draws drawn full bytes bytes' payload h
      before after fails =
    let ascii = lawful.base64_encode-IsAscii private bytes in
    let text = c.base64_encode private in
    let (rest, made, plain) =
      encrypt_metadata_str-any_key c lawful last draws drawn text
        (lawful.base64_encode-ne-nil private full)
        (All-imp (λ b. b < 128) (λ b. b < 256) text (λ b small. omega arith) ascii)
        (IsAscii-is_utf8 text ascii) in
    let made_of = rw made at h in
    let sealed : openssl_salt_prefix_base64 ++ rest ≡ payload.private_key = cc made_of in
    let plainly : c.base64_encode public ≡ payload.public_key = cc made_of in
    let fails' = subst (λ m. All (Fails c m) before) (sym sealed) fails in
    (
      rw (← sealed, plain before after fails', lawful.base64_decode-base64_encode private bytes)
          refl,
      rw (← plainly, lawful.base64_decode-base64_encode public bytes') refl,
    )
