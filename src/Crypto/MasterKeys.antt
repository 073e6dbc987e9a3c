-- ===== src/Crypto/MasterKeys.antt =====
-- The master keys of a user as one metadata text, and the private key, in src/crypto.rs.
use mathlib.Core.Path.{subst}
use rust_filen.Base.{
  ℕ, ◌≡◌, ◌≢◌, refl, ap, ◌∙◌, List, [], ◌∷◌, ◌++◌, true, false, not, Result, ok, ensure, map_ok,
  arith, All, ◌==◌, if◌then◌else◌, is_empty,
}
use rust_filen.Base.Fallible.{◌>>=◌, ◌>>◌}
use rust_filen.Base.Text.{Bytes}
use rust_filen.Base.Utf8.{is_utf8}
use rust_filen.Crypto.Primitives.{
  Ciphers, IsCiphers, CryptoError, IsBytes, openssl_salt_prefix_base64, bad_argument,
  cannot_decode_base64,
}
use rust_filen.Crypto.Aes.{or_err}
use rust_filen.Crypto.Metadata.{
  Draws, encrypt_metadata_str, decrypt_metadata_str, decrypt_metadata_str_any_key,
}
use rust_filen.Crypto.Metadata.Marked.{encrypt_metadata_str-marked}
use rust_filen.Crypto.Metadata.RoundTrip.{IsDrawn, encrypt_metadata_str-total}

-- `join("|")`
abbrev pub join : List Bytes → Bytes
join [] = []
join (key ∷ []) = key
join (key ∷ next ∷ keys) = key ++ b'|' ∷ join (next ∷ keys)

-- A byte in front of the first part.
abbrev push_first : ℕ → List Bytes → List Bytes
push_first b [] = (b ∷ []) ∷ []
push_first b (part ∷ parts) = (b ∷ part) ∷ parts

-- `split('|')`
abbrev pub split : Bytes → List Bytes
split [] = [] ∷ []
split (b ∷ s) = let rest = split s in if b == b'|' then [] ∷ rest else push_first b rest

module _ (c : Ciphers) where
  unfoldable pub encrypt_master_keys_metadata :
      List Bytes → Bytes → ℕ → Draws → Result Bytes CryptoError
  encrypt_master_keys_metadata master_keys last_master_key metadata_version draws =
      encrypt_metadata_str c (join master_keys) last_master_key metadata_version draws

  unfoldable pub decrypt_master_keys_metadata : Bytes → Bytes → Result (List Bytes) CryptoError
  decrypt_master_keys_metadata metadata last_master_key = do
    ensure (not (is_empty metadata))
        (bad_argument "cannot decrypt master keys metadata, it is empty")
    map_ok split (decrypt_metadata_str c metadata last_master_key)

  unfoldable pub decrypt_private_key_metadata : Bytes → List Bytes → Result Bytes CryptoError
  decrypt_private_key_metadata metadata master_keys = do
    ensure (not (is_empty metadata))
        (bad_argument "cannot decrypt private key metadata, it is empty")
    text ← decrypt_metadata_str_any_key c metadata master_keys
    or_err cannot_decode_base64 (c.base64_decode text)

-- A key as one part of the text.
abbrev pub IsKey : Bytes → Type 0
IsKey = All (λ b. b ≢ b'|')

split-append : (key s : Bytes) → IsKey key → split (key ++ b'|' ∷ s) ≡ key ∷ split s
split-append [] s h = refl
split-append (b ∷ key) s (hb, hs) =
    let other : (b == b'|') ≡ false = ground (arith, hb) in rw (other, split-append key s hs) refl

split-key : (key : Bytes) → IsKey key → split key ≡ key ∷ []
split-key [] h = refl
split-key (b ∷ key) (hb, hs) =
    let other : (b == b'|') ≡ false = ground (arith, hb) in rw (other, split-key key hs) refl

split-join :
    (key : Bytes) (keys : List Bytes)
    → All IsKey (key ∷ keys)
    → split (join (key ∷ keys)) ≡ key ∷ keys
split-join key [] (h, _) = split-key key h
split-join key (next ∷ keys) (h, hs) =
    split-append key (join (next ∷ keys)) h ∙ ap (λ ks. key ∷ ks) (split-join next keys hs)

-- A user's master keys, at least one, none with a bar and not a single empty one, are encrypted with
-- a key in version 1 and read back with it in the same order. Stated for keys whose joined text
-- is UTF-8, and for the ciphers and draws of the metadata.
pub decrypt_master_keys_metadata-encrypt_master_keys_metadata :
    (c : Ciphers)
    → IsCiphers c
    → (key : Bytes) (keys : List Bytes) (last : Bytes) (draws : Draws) → IsDrawn draws
    → All IsKey (key ∷ keys)
    → join (key ∷ keys) ≢ []
    → IsBytes (join (key ∷ keys))
    → is_utf8 (join (key ∷ keys)) ≡ true
    → (metadata : Bytes) × (encrypt_master_keys_metadata c (key ∷ keys) last 1 draws ≡ ok metadata)
      × (decrypt_master_keys_metadata c metadata last ≡ ok (key ∷ keys))
unfolding encrypt_master_keys_metadata decrypt_master_keys_metadata
decrypt_master_keys_metadata-encrypt_master_keys_metadata c lawful key keys last draws drawn plain
      full bytes utf8 =
    let text = join (key ∷ keys) in
    let (m, made, back) = encrypt_metadata_str-total c lawful text last draws drawn bytes utf8 in
    let (rest, marked, _) =
      encrypt_metadata_str-marked c lawful last draws drawn text full bytes utf8 in
    let metadata = openssl_salt_prefix_base64 ++ rest in
    let same : m ≡ metadata = cc (made, marked) in
    let back_marked : decrypt_metadata_str c metadata last ≡ ok text =
      subst (λ x. decrypt_metadata_str c x last ≡ ok text) same back in
    (metadata, marked, rw (back_marked, split-join key keys plain) refl)
