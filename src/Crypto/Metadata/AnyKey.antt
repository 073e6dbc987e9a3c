-- ===== src/Crypto/Metadata/AnyKey.antt =====
-- `decrypt_metadata_any_key` of src/crypto.rs finds the first key that decrypts.
use rust_filen.Base.{
  ◌≡◌, ◌≢◌, refl, List, [], ◌∷◌, ◌++◌, false, Result, ok, err, is_ok, is_empty, if◌then◌else◌, All,
}
use rust_filen.Base.Text.{Bytes}
use rust_filen.Crypto.Primitives.{Ciphers, CryptoError, bad_argument}
use rust_filen.Crypto.Metadata.{decrypt_metadata, try_keys, decrypt_metadata_any_key}

module _ (c : Ciphers) (text : Bytes) where
  -- The key does not decrypt the text.
  abbrev pub Fails : Bytes → Type 0
  Fails key = is_ok (decrypt_metadata c text key) ≡ false

  try_keys-append :
      (before after : List Bytes) (key : Bytes) (r : Result Bytes CryptoError) (plain : Bytes)
      → All Fails before
      → decrypt_metadata c text key ≡ ok plain
      → try_keys c text (before ++ key ∷ after) r ≡ ok plain
  unfolding try_keys
  try_keys-append [] after key r plain fails e = rw e
  try_keys-append (k ∷ before) after key r plain (fail, fails) e =
      rw fail (try_keys-append before after key (decrypt_metadata c text k) plain fails e)

  is_ok-try_keys :
      (keys : List Bytes) (r : Result Bytes CryptoError)
      → is_ok r ≡ false
      → All Fails keys
      → is_ok (try_keys c text keys r) ≡ false
  unfolding try_keys
  is_ok-try_keys [] r h fails = h
  is_ok-try_keys (k ∷ keys) r h (fail, fails) =
      rw fail (is_ok-try_keys keys (decrypt_metadata c text k) fail fails)

is_empty-append :
    (before : List Bytes) (key : Bytes) (after : List Bytes)
    → is_empty (before ++ key ∷ after) ≡ false
is_empty-append [] key after = refl
is_empty-append (k ∷ before) key after = refl

-- For a text that is not empty, the result is that of the first key that decrypts it, whatever keys
-- follow.
pub decrypt_metadata_any_key-first :
    (c : Ciphers) (text : Bytes) (before after : List Bytes) (key plain : Bytes)
    → text ≢ []
    → All (Fails c text) before
    → decrypt_metadata c text key ≡ ok plain
    → decrypt_metadata_any_key c text (before ++ key ∷ after) ≡ ok plain
unfolding decrypt_metadata_any_key
decrypt_metadata_any_key-first c [] before after key plain h fails e = absurd (h refl)
decrypt_metadata_any_key-first c (b ∷ text) before after key plain h fails e = rw (
  is_empty-append before key after,
  try_keys-append c (b ∷ text) before after key (ok []) plain fails e,
)

-- For a text that is not empty, the result is an error if no key decrypts it, with a message that
-- tells whether there was a key to try.
pub decrypt_metadata_any_key-Fails :
    (c : Ciphers) (text : Bytes) (keys : List Bytes)
    → text ≢ []
    → All (Fails c text) keys
    → decrypt_metadata_any_key c text keys
      ≡ err (
          bad_argument (
            if is_empty keys
            then "keys for decrypting metadata cannot be empty"
            else "all given keys failed to decrypt metadata"))
unfolding decrypt_metadata_any_key
decrypt_metadata_any_key-Fails c [] keys h fails = absurd (h refl)
decrypt_metadata_any_key-Fails c (b ∷ text) [] h fails = refl
decrypt_metadata_any_key-Fails c (b ∷ text) (key ∷ keys) h fails =
    rw (
      fails.0,
      is_ok-try_keys c (b ∷ text) keys (decrypt_metadata c (b ∷ text) key) fails.0 fails.1,
    )
