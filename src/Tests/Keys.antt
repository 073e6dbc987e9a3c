-- ===== src/Tests/Keys.antt =====
-- Keys of a user on concrete inputs.
use rust_filen.Base.{ℕ, ◌≡◌, refl, [], ◌∷◌, ◌++◌, some, ok, replicate, arith}
use rust_filen.Base.Text.{Bytes, codes}
use rust_filen.Base.Utf8.{is_utf8}
use rust_filen.Crypto.Primitives.{openssl_salt_prefix}
use rust_filen.Crypto.Aes.{encrypt_aes_openssl, generate_aes_key_and_iv}
use rust_filen.Crypto.Metadata.{Draws, encrypt_metadata, encrypt_metadata_str}
use rust_filen.Crypto.Metadata.RoundTrip.{IsDrawn}
use rust_filen.Keys.{
  MasterKeysFetchResponseData, decrypt_keys, decrypt_private_key, decode_public_key,
  fetch_master_keys, info_private_key, info_public_key,
}
use rust_filen.Keys.KeyPair
use rust_filen.Keys.KeyPair.{UserKeyPairUpdateRequestPayload, stored, decrypt_private_key-new}
use rust_filen.Keys.MasterKeys
use rust_filen.Keys.MasterKeys.{MasterKeysFetchRequestPayload, decrypt_keys-new}
use rust_filen.Tests.Instances.{plain_ciphers, plain_ciphers-IsCiphers}

abbrev draws : Draws
draws = record { salt = codes "saltsalt"; iv = codes "abcdefghijkl" }

draws-IsDrawn : IsDrawn draws
draws-IsDrawn = record {
  length_salt = omega arith;
  salt-IsBytes = search (arith, tt);
  length_iv = omega arith;
  iv-IsAscii = search (arith, tt);
}

-- What the ciphers of the tests encrypt a text to.
abbrev sealed : Bytes → Bytes
sealed s =
    plain_ciphers.base64_encode (openssl_salt_prefix ++ (codes "saltsalt" ++ (replicate 16 0 ++ s)))

abbrev payload : UserKeyPairUpdateRequestPayload
payload = record {
  api_key = codes "api";
  private_key = sealed (plain_ciphers.base64_encode (codes "private"));
  public_key = plain_ciphers.base64_encode (codes "public");
}

made :
    KeyPair.new plain_ciphers {Q = ℕ}
      (codes "api")
      (codes "private")
      (codes "public")
      (codes "last")
      draws
    ≡ ok payload
unfolding KeyPair.new encrypt_metadata_str encrypt_metadata encrypt_aes_openssl
    generate_aes_key_and_iv is_utf8
made = refl

decrypt_private_key-new_example :
    (decrypt_private_key plain_ciphers {Q = ℕ} (stored payload) (codes "last" ∷ codes "other" ∷ [])
      ≡ ok (codes "private"))
    × (decode_public_key plain_ciphers {Q = ℕ} (stored payload) ≡ ok (codes "public"))
decrypt_private_key-new_example =
    decrypt_private_key-new plain_ciphers plain_ciphers-IsCiphers (codes "api") (codes "private")
      (codes "public") (codes "last") draws draws-IsDrawn (λ e. cc e) (search (arith, tt))
      (search (arith, tt)) payload made [] (codes "other" ∷ []) tt

decrypt_keys-new_example :
    (sent : MasterKeysFetchRequestPayload) × (MasterKeys.new plain_ciphers {Q = ℕ}
        (codes "api")
        (codes "first" ∷ codes "second" ∷ [])
        draws
      ≡ ok sent)
    × (decrypt_keys plain_ciphers {Q = ℕ}
          (let d : MasterKeysFetchResponseData = record {
            keys_metadata = some sent.master_keys_metadata;
          } in
            d)
          (codes "second")
        ≡ ok (codes "first" ∷ codes "second" ∷ []))
decrypt_keys-new_example =
    decrypt_keys-new plain_ciphers plain_ciphers-IsCiphers (codes "api") (codes "first")
      (codes "second" ∷ []) draws draws-IsDrawn (λ e. cc e) (search (arith, tt))
      (search (arith, tt)) (unfold is_utf8 in refl)
