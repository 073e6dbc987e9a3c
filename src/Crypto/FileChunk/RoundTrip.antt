-- ===== src/Crypto/FileChunk/RoundTrip.antt =====
-- A file chunk of src/crypto.rs that was encrypted is decrypted from the bytes that its text stands for.
use mathlib.Core.List.{flat_map}
use mathlib.Core.Option
use mathlib.Core.Option.{some-injective}
use mathlib.Core.Path.{subst}
use rust_filen.Base.{
  ℕ, ◌+◌, ◌-◌, ◌*◌, ◌/◌, ◌%◌, ◌<◌, ◌≡◌, ◌≢◌, refl, sym, ◌∙◌, ap, [], ◌∷◌, ◌++◌, Option, none, some,
  Bool, true, false, ◌||◌, ◌&&◌, ok, arith, ltb, ◌==◌, length, is_ok, take, drop, take-append-drop,
  All-drop, le→ltb, Bool-cases, ◌⊎◌, inl, inr, Result-cases, append_assoc, append-nil, lt→ltb,
}
use rust_filen.Base.Text.{Bytes, bytes_eq, bytes_eq_sound}
use rust_filen.Base.Utf8.{encode_char}
use rust_filen.Crypto.Primitives.{
  Ciphers, IsCiphers, IsBytes, IsAscii, openssl_salt_prefix, openssl_salt_prefix_base64,
  aes_gcm_iv_length,
}
use rust_filen.Crypto.Aes.{
  bytes_to_binary_string, decrypt_aes_gcm, salt_and_message, decrypt_aes_openssl,
}
use rust_filen.Crypto.Aes.RoundTrip.{
  gcm_encrypt-some, encrypt_aes_gcm_bstr-inv, decrypt_aes_gcm-append,
}
use rust_filen.Crypto.Metadata.{get_prefix}
use rust_filen.Crypto.FileChunk.{
  aes_cbc_iv_from_key, encrypt_file_chunk, decrypt_file_chunk, decrypt_chunk_v1,
}

-- The codes of the characters of a text, for characters below 256; `lead` is the upper part of a
-- character whose second byte is still to come.
characters_after : Option ℕ → Bytes → Option Bytes
characters_after none [] = some []
characters_after (some lead) [] = none
characters_after none (c ∷ s) = elim (ltb c 0x80) [
  | true ↦ Option.map (λ cs. c ∷ cs) (characters_after none s)
  | false ↦ characters_after (some (c - 0xc0)) s
]
characters_after (some lead) (c ∷ s) =
    Option.map (λ cs. (lead * 64 + (c - 0x80)) ∷ cs) (characters_after none s)

unfoldable pub characters : Bytes → Option Bytes
unfolding characters_after
characters = characters_after none

characters-encode_char :
    (c : ℕ) (s : Bytes)
    → c < 256
    → characters_after none (encode_char c ++ s)
      ≡ Option.map (λ cs. c ∷ cs) (characters_after none s)
unfolding characters_after
characters-encode_char c s h = elim (Bool-cases (ltb c 0x80)) [
  | inl e ↦ let short : encode_char c ++ s ≡ c ∷ s = rw (e) in rw (short, e, characters_after)
  | inr e ↦
      let lead : ltb (0xc0 + c / 64) 0x80 ≡ false = ground arith in
      let whole : ((0xc0 + c / 64) - 0xc0) * 64 + ((0x80 + c % 64) - 0x80) ≡ c = omega arith in
      let long : encode_char c ++ s ≡ (0xc0 + c / 64) ∷ (0x80 + c % 64) ∷ s = rw (e) in
      rw (long, lead, whole, characters_after)
]

characters-append :
    (bytes s cs : Bytes)
    → IsBytes bytes
    → characters_after none s ≡ some cs
    → characters_after none (bytes_to_binary_string bytes ++ s) ≡ some (bytes ++ cs)
unfolding bytes_to_binary_string flat_map
characters-append [] s cs h e = e
characters-append (b ∷ bytes) s cs (hb, hs) e =
    let rest = flat_map encode_char bytes in
    rw (
      append_assoc (encode_char b) rest s,
      characters-encode_char b (rest ++ s) hb,
      characters-append bytes s cs hs e,
    )

-- An ASCII text stands for itself.
characters-ascii :
    (iv s cs : Bytes)
    → IsAscii iv
    → characters_after none s ≡ some cs
    → characters_after none (iv ++ s) ≡ some (iv ++ cs)
unfolding characters_after
characters-ascii [] s cs h e = e
characters-ascii (b ∷ iv) s cs (hb, hs) e =
    let step : characters_after none (b ∷ (iv ++ s)) ≡ some (b ∷ (iv ++ cs)) =
      rw (lt→ltb b 0x80 hb, characters_after)
        (ap (Option.map (λ xs. b ∷ xs)) (characters-ascii iv s cs hs e)) in
    step

characters-binary :
    (bytes : Bytes) → IsBytes bytes → characters (bytes_to_binary_string bytes) ≡ some bytes
unfolding characters characters_after
characters-binary bytes h =
    let whole = characters-append bytes [] [] h refl in
    rw (sym (append-nil (bytes_to_binary_string bytes)), whole, append-nil bytes)

characters-gcm :
    (iv bytes : Bytes)
    → IsAscii iv
    → IsBytes bytes
    → characters (iv ++ bytes_to_binary_string bytes) ≡ some (iv ++ bytes)
unfolding characters
characters-gcm iv bytes ha hb =
    characters-ascii iv (bytes_to_binary_string bytes) bytes ha (characters-binary bytes hb)

-- Whether the bytes start like an OpenSSL ciphertext, bare or in base64.
unfoldable pub is_marked : Bytes → Bool
is_marked b =
    bytes_eq (get_prefix (length openssl_salt_prefix) b) openssl_salt_prefix
    || bytes_eq (get_prefix (length openssl_salt_prefix) b) openssl_salt_prefix_base64

module _ (c : Ciphers) (lawful : IsCiphers c) (x : ℕ) (rest key iv t b : Bytes) where
  -- A chunk of at least one byte, and the text and bytes that it is encrypted to.
  abbrev chunk : Bytes
  chunk = x ∷ rest

  abbrev Encrypts : ℕ → Type 0
  Encrypts version = encrypt_file_chunk c chunk key version iv ≡ ok t

  decrypt_unmarked :
      (cbc_iv : Bytes)
      → aes_cbc_iv_from_key key ≡ ok cbc_iv
      → c.cbc_encrypt key cbc_iv chunk ≡ b
      → is_marked b ≡ false
      → decrypt_file_chunk c b key 1 ≡ ok chunk
  unfolding decrypt_file_chunk decrypt_chunk_v1 is_marked
  decrypt_unmarked cbc_iv found body unmarked =
      let long : ltb (length b) 8 ≡ false =
        le→ltb (length b) 8
          (omega (arith, ap length body, lawful.le-length-cbc_encrypt key cbc_iv chunk)) in
      let plain : c.cbc_decrypt key cbc_iv b ≡ some chunk =
        rw (sym body) (lawful.cbc_decrypt-cbc_encrypt key cbc_iv chunk) in
      rw (long) (ground (arith, found, plain, unmarked))

  decrypt_1 :
      IsBytes chunk
      → Encrypts 1
      → characters t ≡ some b
      → is_marked b ≡ false
      → decrypt_file_chunk c b key 1 ≡ ok chunk
  unfolding encrypt_file_chunk
  decrypt_1 bytes h e unmarked = elim (Result-cases (aes_cbc_iv_from_key key)) [
    | inl (cbc_iv, found) ↦
        let sealed = c.cbc_encrypt key cbc_iv chunk in
        let text : bytes_to_binary_string sealed ≡ t = ground (arith, found) in
        let whole = characters-binary sealed (lawful.cbc_encrypt-IsBytes key cbc_iv chunk bytes) in
        let body : sealed ≡ b = some-injective _ _ (sym whole ∙ (ap characters text ∙ e)) in
        decrypt_unmarked cbc_iv found body unmarked
    | inr (_, failed) ↦ absurd (ground arith)
  ]

  decrypt_2 :
      IsBytes chunk
      → IsAscii iv
      → length iv ≡ aes_gcm_iv_length
      → Encrypts 2
      → characters t ≡ some b
      → decrypt_file_chunk c b key 2 ≡ ok chunk
  unfolding encrypt_file_chunk decrypt_file_chunk
  decrypt_2 bytes ascii len h e =
      let (encrypted, sealed, text) = encrypt_aes_gcm_bstr-inv c chunk key iv t h in
      let found = gcm_encrypt-some c lawful chunk key iv encrypted sealed in
      let whole =
        characters-gcm iv encrypted ascii (lawful.gcm_encrypt-IsBytes _ _ _ _ bytes found) in
      let body : iv ++ encrypted ≡ b = some-injective _ _ (sym whole ∙ (ap characters text ∙ e)) in
      subst (λ m. decrypt_aes_gcm c m key ≡ ok chunk) body
        (decrypt_aes_gcm-append c lawful chunk key iv encrypted len sealed)

  encrypt-version : (version : ℕ) → Encrypts version → (version ≡ 1) ⊎ (version ≡ 2)
  unfolding encrypt_file_chunk
  encrypt-version version h = ground arith

module _ (c : Ciphers) (lawful : IsCiphers c) (key iv : Bytes) where
  -- A chunk of at least one byte that is encrypted in version 1 or 2 is decrypted with the same key
  -- and version from the codes of its text's characters. In version 1 those must not start like an
  -- OpenSSL ciphertext. Stated for ciphers that keep their documented promises and a drawn IV of the
  -- right shape.
  pub decrypt_file_chunk-encrypt_file_chunk :
      (chunk t b : Bytes) (version : ℕ)
      → chunk ≢ []
      → IsBytes chunk
      → IsAscii iv
      → length iv ≡ aes_gcm_iv_length
      → encrypt_file_chunk c chunk key version iv ≡ ok t
      → characters t ≡ some b
      → version == 1 && is_marked b ≡ false
      → decrypt_file_chunk c b key version ≡ ok chunk
  decrypt_file_chunk-encrypt_file_chunk [] t b version full _ _ _ _ _ _ = absurd (full refl)
  decrypt_file_chunk-encrypt_file_chunk (x ∷ rest) t b version full bytes ascii len h e unmarked =
      elim (encrypt-version c lawful x rest key iv t b version h) [
        | inl one ↦
            let h_1 = rw one at h in
            let unmarked_1 = rw one at unmarked in
            rw (one) (decrypt_1 c lawful x rest key iv t b bytes h_1 e unmarked_1)
        | inr two ↦
            let h_2 = rw two at h in
            rw (two) (decrypt_2 c lawful x rest key iv t b bytes ascii len h_2 e)
      ]

  openssl_rejects_base64 :
      (s : Bytes) → is_ok (decrypt_aes_openssl c (openssl_salt_prefix_base64 ++ s) key) ≡ false
  unfolding decrypt_aes_openssl salt_and_message
  openssl_rejects_base64 s = ground arith

  starts :
      (b mark : Bytes) → bytes_eq (get_prefix 8 b) mark ≡ true → mark ≢ [] → b ≡ mark ++ drop 8 b
  starts b mark h full = elim (Bool-cases (ltb (length b) 8)) [
    | inl e ↦
        let nothing : get_prefix 8 b ≡ [] = rw (e) in
        absurd (full (sym (bytes_eq_sound (get_prefix 8 b) mark h) ∙ nothing))
    | inr e ↦
        let front : get_prefix 8 b ≡ take 8 b = rw (e) in
        let same = sym front ∙ bytes_eq_sound (get_prefix 8 b) mark h in
        sym (take-append-drop 8 b) ∙ ap (λ m. m ++ drop 8 b) same
  ]

  raw_mark :
      (d : Bytes)
      → IsBytes d
      → is_ok (decrypt_file_chunk c (openssl_salt_prefix ++ d) key 1) ≡ false
  unfolding decrypt_file_chunk decrypt_chunk_v1
  raw_mark d bytes =
      let (rest, e) = lawful.base64_encode_salted d bytes in
      let long = le→ltb (length (openssl_salt_prefix ++ d)) 8 (omega arith) in
      rw (long, decrypt_chunk_v1) (rw (e) (openssl_rejects_base64 rest))

  base64_mark :
      (d : Bytes) → is_ok (decrypt_file_chunk c (openssl_salt_prefix_base64 ++ d) key 1) ≡ false
  unfolding decrypt_file_chunk decrypt_chunk_v1 bytes_to_binary_string flat_map
  base64_mark d =
      let long = le→ltb (length (openssl_salt_prefix_base64 ++ d)) 8 (omega arith) in
      rw (long, decrypt_chunk_v1) (openssl_rejects_base64 (bytes_to_binary_string d))

  -- In version 1 no bytes that start like an OpenSSL ciphertext, bare or in base64, are decrypted.
  pub decrypt_file_chunk_marked :
      (b : Bytes) → IsBytes b → is_marked b ≡ true → is_ok (decrypt_file_chunk c b key 1) ≡ false
  unfolding is_marked
  decrypt_file_chunk_marked b bytes marked =
      let rest_bytes = All-drop (λ x. x < 256) 8 b bytes in
      elim (Bool-cases (bytes_eq (get_prefix 8 b) openssl_salt_prefix)) [
        | inl e ↦ rw (starts b openssl_salt_prefix e (λ p. cc)) (raw_mark (drop 8 b) rest_bytes)
        | inr e ↦
            let e_64 : bytes_eq (get_prefix 8 b) openssl_salt_prefix_base64 ≡ true =
              ground (arith, e) in
            rw (starts b openssl_salt_prefix_base64 e_64 (λ p. cc)) (base64_mark (drop 8 b))
      ]
