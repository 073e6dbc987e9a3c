-- ===== src/Keys/MasterKeys.antt =====
-- `MasterKeysFetchRequestPayload` of src/v1/user_keys.rs: the master keys that are sent to the servers and read
-- back.
use rust_filen.Base.{
  ◌≡◌, ◌≢◌, refl, List, [], ◌∷◌, ◌++◌, Option, some, none, true, not, is_empty, Result, ok, map_err,
  ensure, get_last?, All,
}
use rust_filen.Base.Text.{Bytes}
use rust_filen.Base.Utf8.{is_utf8}
use rust_filen.Base.Fallible.{◌>>=◌, ◌>>◌}
use rust_filen.Crypto.Primitives.{Ciphers, IsCiphers, IsBytes}
use rust_filen.Crypto.Metadata.{Draws}
use rust_filen.Crypto.Metadata.RoundTrip.{IsDrawn}
use rust_filen.Crypto.MasterKeys.{
  join, IsKey, encrypt_master_keys_metadata,
  decrypt_master_keys_metadata-encrypt_master_keys_metadata,
}
use rust_filen.Files.{metadata_version}
use rust_filen.Keys.{
  UserKeysError, bad_argument, encrypt_master_keys_failed, MasterKeysFetchResponseData,
  decrypt_keys, fetch_master_keys,
}

pub record MasterKeysFetchRequestPayload : Type 0 where
  pub api_key : Bytes
  pub master_keys_metadata : Bytes

-- `raw_master_keys.last().unwrap_or(&empty_key)`
abbrev pub or_empty : Option Bytes → Bytes
or_empty none = []
or_empty (some key) = key

-- `MasterKeysFetchRequestPayload::new`
unfoldable pub new :
    (c : Ciphers) {Q : Type 0} (api_key : Bytes) (raw_master_keys : List Bytes)
    → Draws
    → Result MasterKeysFetchRequestPayload (UserKeysError Q)
new c api_key raw_master_keys draws = do
  let last_master_key = or_empty (get_last? raw_master_keys)
  ensure (not (is_empty last_master_key)) (
      bad_argument
        "given raw master keys should not be empty or last master key should not be empty")
  master_keys_metadata ←
      map_err encrypt_master_keys_failed
        (encrypt_master_keys_metadata c raw_master_keys last_master_key metadata_version draws)
  ok (record { api_key = api_key; master_keys_metadata = master_keys_metadata })

-- Text after a key is text.
append-ne-nil : {A : Type 0} (xs ys : List A) → ys ≢ [] → xs ++ ys ≢ []
append-ne-nil [] ys h e = h e
append-ne-nil (x ∷ xs) ys h e = cc e

join-ne-nil :
    (key : Bytes) (keys : List Bytes)
    → or_empty (get_last? (key ∷ keys)) ≢ []
    → join (key ∷ keys) ≢ []
join-ne-nil key [] h e = h e
join-ne-nil key (next ∷ keys) h e =
    append-ne-nil key (b'|' ∷ join (next ∷ keys)) (λ empty. cc empty) e

last_full : (key : Bytes) → key ≢ [] → not (is_empty key) ≡ true
last_full [] h = absurd (h refl)
last_full (b ∷ key) h = refl

-- Master keys, the last of which is not empty, are always made ready to be sent, and what
-- the servers keep of them gives the same keys back in the same order, with the last of them.
-- Stated for keys without a bar whose joined text is UTF-8, and for the ciphers and draws of the
-- metadata.
pub decrypt_keys-new :
    (c : Ciphers)
    → IsCiphers c
    → {Q : Type 0} (api_key key : Bytes) (keys : List Bytes) (draws : Draws) → IsDrawn draws
    → or_empty (get_last? (key ∷ keys)) ≢ []
    → All IsKey (key ∷ keys)
    → IsBytes (join (key ∷ keys))
    → is_utf8 (join (key ∷ keys)) ≡ true
    → (payload : MasterKeysFetchRequestPayload) × (new c {Q = Q} api_key (key ∷ keys) draws
        ≡ ok payload)
      × (decrypt_keys c {Q = Q}
            (let d : MasterKeysFetchResponseData = record {
              keys_metadata = some payload.master_keys_metadata;
            } in
              d)
            (or_empty (get_last? (key ∷ keys)))
          ≡ ok (key ∷ keys))
unfolding new decrypt_keys
decrypt_keys-new c lawful api_key key keys draws drawn full plain bytes utf8 =
    let last = or_empty (get_last? (key ∷ keys)) in
    let (metadata, made, back) =
      decrypt_master_keys_metadata-encrypt_master_keys_metadata c lawful key keys last draws drawn
        plain (join-ne-nil key keys full) bytes utf8 in
    (
      record { api_key = api_key; master_keys_metadata = metadata },
      rw (last_full last full, made) refl,
      rw back refl,
    )
