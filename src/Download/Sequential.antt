-- ===== src/Download/Sequential.antt =====
-- What `download_and_decrypt_file` of src/v1/download_file.rs writes and returns.
use mathlib.Core.Path.{subst}
use rust_filen.Base.{
  ℕ, ◌+◌, ◌≡◌, refl, sym, ap, ◌∙◌, List, [], ◌∷◌, ◌++◌, append_assoc, append-nil, Bool-cases, inl,
  inr, true, ok, err, returns, arith, map_err-ok, length, All-range, ◌<◌, map, concat, range,
  sum_u64, ◌==◌,
}
use rust_filen.Base.Text.{Bytes}
use rust_filen.Base.Effects.{
  lift, context, traverse, bind-ok, traverse-total, context-ok, context-cases,
}
use rust_filen.Backoff.{RetrySettings, Retry, call}
use rust_filen.Backoff.Call.{IsRetry, attempts-Good, call-attempts}
use rust_filen.Names.{Uuids}
use rust_filen.Crypto.Primitives.{Ciphers}
use rust_filen.Crypto.FileChunk.{decrypt_file_chunk}
use rust_filen.Download.Promises.{IsIo, stored_chunk, Decrypts, Delivers}
use rust_filen.Download.{
  Io, FileLocation, FileChunkLocation, get_file_chunk_location, filen_file_location_to_api_endpoint,
  DownloadError, cannot_download_file_chunk, cannot_write_file_chunk, cannot_flush_writer,
  download_file_chunk, open_chunk, download_and_write_chunk, download_and_decrypt_file,
}

module _ (u : Uuids) (c : Ciphers) {W : Type 0} (io : Io W) (key : Bytes) (version : ℕ)
    (len : length key ≡ 32) where
  pub opens :
      (l : FileChunkLocation u) (encrypted plain : Bytes)
      → decrypt_file_chunk c encrypted key version ≡ ok plain
      → open_chunk u io c l key version encrypted ≡ ok plain
  unfolding open_chunk
  opens l encrypted plain h =
      let e : (length key == 32) ≡ true = ground arith in rw (e, h, open_chunk) refl

module _ (u : Uuids) (c : Ciphers) {W : Type 0} (io : Io W) (retry : Retry W) (written : W → Bytes)
    (store : Bytes → Bytes) (lawful : IsIo io written store) (retries : IsRetry retry)
    (settings : RetrySettings) (location : FileLocation u) (version : ℕ) (key : Bytes) where
  abbrev stored : ℕ → Bytes
  stored = stored_chunk u store location

  -- A downloaded chunk is the stored one, and nothing was written.
  abbrev Fetched : FileChunkLocation u → W → Bytes → W → Type 0
  Fetched l w bytes w' =
      (written w' ≡ written w) × (bytes ≡ store (filen_file_location_to_api_endpoint u l))

  download-Fetched :
      (l : FileChunkLocation u) (w v v' : W)
      → written v ≡ written w
      → ((bytes : Bytes)
          → download_file_chunk u io l v ≡ returns (ok bytes, v')
          → Fetched l w bytes v')
        × ((e : DownloadError u io)
            → download_file_chunk u io l v ≡ returns (err e, v')
            → written v' ≡ written w)
  unfolding download_file_chunk
  download-Fetched l w v v' k =
      let endpoint = filen_file_location_to_api_endpoint u l in
      let ask = io.download_from_filen endpoint in
      (
        λ bytes h.
            let found = context-ok (cannot_download_file_chunk l) ask bytes v v' h in
            (
              lawful.download_keeps endpoint v v' (ok bytes) found ∙ k,
              lawful.download_stored endpoint v v' bytes found,
            ),
        λ e h. elim (context-cases (cannot_download_file_chunk l) ask (err e) v v' h) [
          | inl (_, _, same) ↦ absurd (cc same)
          | inr (x, found, _) ↦ lawful.download_keeps endpoint v v' (err x) found ∙ k
        ],
      )

  pub fetched :
      (l : FileChunkLocation u) (w w' : W) (bytes : Bytes)
      → call retry settings (download_file_chunk u io l) w ≡ returns (ok bytes, w')
      → Fetched l w bytes w'
  fetched l w w' bytes h =
      let counted =
        sym (
          call-attempts retry retries Bytes (DownloadError u io) settings
            (download_file_chunk u io l) w)
        ∙ h in
      attempts-Good (λ v. written v ≡ written w) (Fetched l w) (download_file_chunk u io l)
        (download-Fetched l w) settings.max_tries w w' bytes refl counted

  pub opened :
      (l : FileChunkLocation u) (encrypted plain : Bytes)
      → open_chunk u io c l key version encrypted ≡ ok plain
      → decrypt_file_chunk c encrypted key version ≡ ok plain
  unfolding open_chunk
  opened l encrypted plain h = elim (Bool-cases (length key == 32)) [
    | inl e ↦ map_err-ok _ _ plain (rw (e, open_chunk) at h)
    | inr e ↦ absurd (cc (rw (e, open_chunk) at h))
  ]

  chunk-ok :
      (i n : ℕ) (w w' : W)
      → download_and_write_chunk u c io retry settings location version key i w ≡ returns (ok n, w')
      → (plain : Bytes) × (decrypt_file_chunk c (stored i) key version ≡ ok plain)
        × (n ≡ length (stored i))
        × (written w' ≡ written w ++ plain)
  unfolding download_and_write_chunk
  chunk-ok i n w w' h =
      let l = get_file_chunk_location u location i in
      let (encrypted, w_1, got, h_1) =
        bind-ok (call retry settings (download_file_chunk u io l)) _ n w w' h in
      let (plain, w_2, opens, h_2) =
        bind-ok (lift (open_chunk u io c l key version encrypted)) _ n w_1 w' h_1 in
      let (_, w_3, wrote, h_3) =
        bind-ok (context (cannot_write_file_chunk (length plain) l) (io.write_all plain)) _ n w_2 w'
          h_2 in
      let (kept, held) = fetched l w w_1 encrypted got in
      let same : w_1 ≡ w_2 = cc opens in
      let stays : w_3 ≡ w' = cc h_3 in
      let held_plain = opened l encrypted plain (cc opens) in
      let wrote_plain = lawful.write_all-ok plain w_2 w_3 (
        context-ok (cannot_write_file_chunk (length plain) l) (io.write_all plain) tt w_2 w_3
          wrote) in
      (plain, cc (held, held_plain), cc (held, h_3), cc (wrote_plain, kept, same, stays))

  chunks-ok :
      (is ns : List ℕ) (w w' : W)
      → traverse (download_and_write_chunk u c io retry settings location version key) is w
        ≡ returns (ok ns, w')
      → (plain : List Bytes) × Decrypts c key version (map stored is) plain
        × (ns ≡ map (λ i. length (stored i)) is)
        × (written w' ≡ written w ++ concat plain)
  unfolding traverse
  chunks-ok [] ns w w' h = ([], refl, cc h, ap written (cc h) ∙ sym (append-nil (written w)))
  chunks-ok (i ∷ is) ns w w' h =
      let (n, w_1, got, h_1) =
        bind-ok (download_and_write_chunk u c io retry settings location version key i) _ ns w w'
          h in
      let (ms, w_2, more, h_2) =
        bind-ok (traverse (download_and_write_chunk u c io retry settings location version key) is)
          _ ns w_1 w' h_1 in
      let (plain, opens, counted, wrote) = chunk-ok i n w w_1 got in
      let (rest, opens_rest, counted_rest, wrote_rest) = chunks-ok is ms w_1 w_2 more in
      let stays : w_2 ≡ w' = cc h_2 in
      (
        plain ∷ rest,
        (opens, opens_rest),
        cc (counted, counted_rest, h_2),
        ap written (sym stays)
            ∙ wrote_rest
            ∙ ap (λ s. s ++ concat rest) wrote
            ∙ append_assoc (written w) plain (concat rest),
      )

  abbrev Returns : ℕ → Type 0
  Returns i =
      (w : W)
      → (n : ℕ) × (w' : W) × (download_and_write_chunk u c io retry settings location version key i
            w
          ≡ returns (ok n, w'))

  chunk-total :
      Delivers u c io store settings location version key
      → (i : ℕ) → i < location.chunks
      → Returns i
  unfolding download_and_write_chunk
  chunk-total d i lt w =
      let l = get_file_chunk_location u location i in
      let (w_1, got) = d.answers i w lt in
      let (plain, e) = d.decrypts i lt in
      let (w_2, wrote) = d.writes plain w_1 in
      let counted =
        call-attempts retry retries Bytes (DownloadError u io) settings (download_file_chunk u io l)
          w in
      (
        length (stored i),
        w_2,
        rw (counted, got, opens u c io key version d.length_key l (stored i) plain e, wrote) refl,
      )

  run-total :
      Delivers u c io store settings location version key
      → (w : W)
      → (n : ℕ) × (w' : W) × (download_and_decrypt_file u c io retry settings location version key w
          ≡ returns (ok n, w'))
  unfolding download_and_decrypt_file
  run-total d w =
      let all =
        All-range Returns 0 location.chunks
          (λ i lt. let e : i ≡ 0 + i = omega arith in subst Returns e (chunk-total d i lt)) in
      let (ns, w_1, e) =
        traverse-total (download_and_write_chunk u c io retry settings location version key)
          (range 0 location.chunks) all w in
      let (w_2, flushed) = d.flushes w_1 in (sum_u64 ns, w_2, rw (e, flushed) refl)

-- If the download of a file succeeds, the writer has got, behind what it held, the plain chunks that
-- the servers' chunks decrypt to, each once and in order, and the result is the total length of the
-- encrypted chunks. Stated for a writer and servers that keep their promises, retries included.
pub download_and_decrypt_file-ok :
    (u : Uuids) (c : Ciphers) {W : Type 0} (io : Io W) (retry : Retry W) (written : W → Bytes)
    (store : Bytes → Bytes)
    → IsIo io written store
    → IsRetry retry
    → (settings : RetrySettings) (location : FileLocation u) (version : ℕ) (key : Bytes) (total : ℕ)
      (w w' : W)
    → download_and_decrypt_file u c io retry settings location version key w
      ≡ returns (ok total, w')
    → (plain : List Bytes) × Decrypts c key version
        (map (stored_chunk u store location) (range 0 location.chunks))
        plain
      × (written w' ≡ written w ++ concat plain)
      × (total
          ≡ sum_u64 (map (λ i. length (stored_chunk u store location i)) (range 0 location.chunks)))
unfolding download_and_decrypt_file
download_and_decrypt_file-ok u c {W} io retry written store lawful retries settings location version
      key total w w' h =
    let (ns, w_1, all, h_1) =
      bind-ok
        (traverse (download_and_write_chunk u c io retry settings location version key)
          (range 0 location.chunks))
        _ total w w' h in
    let (_, w_2, flushed, h_2) =
      bind-ok (context cannot_flush_writer io.flush) _ total w_1 w' h_1 in
    let (plain, decrypts, counted, wrote) =
      chunks-ok u c io retry written store lawful retries settings location version key
        (range 0 location.chunks) ns w w_1 all in
    let kept =
      lawful.flush-ok w_1 w_2 (context-ok cannot_flush_writer io.flush tt w_1 w_2 flushed) in
    let stays : w_2 ≡ w' = cc h_2 in
    (plain, decrypts, ap written (sym stays) ∙ kept ∙ wrote, cc (h_2, counted))

-- If the servers answer within the attempts allowed, the writer takes everything and every chunk
-- decrypts with the key of 32 bytes, the download succeeds, with the content and the total so described.
pub download_and_decrypt_file-total :
    (u : Uuids) (c : Ciphers) {W : Type 0} (io : Io W) (retry : Retry W) (written : W → Bytes)
    (store : Bytes → Bytes)
    → IsIo io written store
    → IsRetry retry
    → (settings : RetrySettings) (location : FileLocation u) (version : ℕ) (key : Bytes)
    → Delivers u c io store settings location version key
    → (w : W)
    → let encrypted = map (stored_chunk u store location) (range 0 location.chunks) in
      (w' : W) × (plain : List Bytes) × (download_and_decrypt_file u c io retry settings location
          version key w
        ≡ returns (
          ok (
              sum_u64
                (map (λ i. length (stored_chunk u store location i)) (range 0 location.chunks))),
          w',
        ))
      × Decrypts c key version encrypted plain
      × (written w' ≡ written w ++ concat plain)
download_and_decrypt_file-total u c {W} io retry written store lawful retries settings location
      version key d w =
    let (total, w', e) =
      run-total u c io retry written store lawful retries settings location version key d w in
    let (plain, decrypts, wrote, counted) =
      download_and_decrypt_file-ok u c io retry written store lawful retries settings location
        version key total w w' e in
    (w', plain, cc (e, counted), decrypts, wrote)
