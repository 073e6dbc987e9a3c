-- ===== src/Download/Batch/Order.antt =====
-- What the asynchronous download of src/v1/download_file.rs writes, and what its parts return.
use mathlib.Core.Path.{subst}
use rust_filen.Base.{
  ℕ, suc, ◌+◌, ◌*◌, ◌%◌, ◌^◌, ◌<◌, ◌≤◌, ◌≡◌, sym, ap, ◌∙◌, List, [], ◌∷◌, ◌++◌, append_assoc,
  append-nil, ok, returns, arith, length, map, concat, range, sum_u64, inl, inr, Result-cases, All,
  concat-append, enumerate, map-enumerate, map_id, map-append, concat-chunks_of, chunks_of-All,
  length-range,
}
use rust_filen.Base.Text.{Bytes}
use rust_filen.Base.Effects.{Eff, ◌>>◌, lift, context, traverse, bind-ok, context-ok}
use rust_filen.Backoff.{RetrySettings, Retry, call}
use rust_filen.Backoff.Call.{IsRetry}
use rust_filen.Names.{Uuids}
use rust_filen.Crypto.Primitives.{Ciphers}
use rust_filen.Chunks.Machine.{add_u32}
use rust_filen.Download.{
  Io, FileLocation, FileChunkLocation, get_file_chunk_location, DownloadError, download_file_chunk,
  cannot_write_file_chunk, cannot_flush_writer, open_chunk,
}
use rust_filen.Download.Promises.{IsIo, Decrypts, stored_chunk}
use rust_filen.Download.Sequential.{fetched, opened}
use rust_filen.Download.Batch.{
  batch_chunks, async_chunk_batch_size, decrypt_chunks, decrypt_batch, write_batch, download_batch,
  download_and_decrypt_batch, write_indexed, download_and_decrypt_file_async,
}

-- The batches put together are the chunk indices in order, and each batch holds at least one and at
-- most `batch_size` of them.
pub batch_chunks-concat :
    (file_chunk_count batch_size : ℕ)
    → 0 < batch_size
    → (concat (batch_chunks file_chunk_count batch_size) ≡ range 0 file_chunk_count)
      × All
          (λ (b : List ℕ). (0 < length b) × (length b ≤ batch_size))
          (batch_chunks file_chunk_count batch_size)
unfolding batch_chunks
batch_chunks-concat n size pos =
    let enough : length (range 0 n) ≤ n = omega (arith, length-range 0 n) in
    (concat-chunks_of n size (range 0 n) enough pos, chunks_of-All n size (range 0 n) pos)

sum_step :
    (k size n s : ℕ)
    → n ≡ size
    → s ≡ (k * size) % 2 ^ 64
    → (n + s) % 2 ^ 64 ≡ (suc k * size) % 2 ^ 64
sum_step k size n s e f =
    let more : suc k * size ≡ k * size + size = grind arith in rw (e, f, more) (omega arith)

Decrypts-append :
    (c : Ciphers) (key : Bytes) (version : ℕ) (es fs ps qs : List Bytes)
    → Decrypts c key version es ps
    → Decrypts c key version fs qs
    → Decrypts c key version (es ++ fs) (ps ++ qs)
Decrypts-append c key version [] fs [] qs h k = k
Decrypts-append c key version [] fs (p ∷ ps) qs h k = absurd (cc h)
Decrypts-append c key version (e ∷ es) fs [] qs h k = absurd (cc h)
Decrypts-append c key version (e ∷ es) fs (p ∷ ps) qs (h, hs) k =
    (h, Decrypts-append c key version es fs ps qs hs k)

module _ (u : Uuids) {W : Type 0} (io : Io W) (written : W → Bytes) (store : Bytes → Bytes)
    (lawful : IsIo io written store) where
  -- The write of one chunk of a batch.
  abbrev write_one : ℕ → FileChunkLocation u → Bytes → Eff W ℕ (DownloadError u io)
  write_one size l bytes =
      context (cannot_write_file_chunk (length bytes) l) (io.write_all bytes) >> lift (ok size)

  writes-ok :
      (batch : List Bytes) (ns : List ℕ) (size : ℕ) (l : FileChunkLocation u) (w w' : W)
      → traverse (write_one size l) batch w ≡ returns (ok ns, w')
      → (sum_u64 ns ≡ (length batch * size) % 2 ^ 64) × (written w' ≡ written w ++ concat batch)
  unfolding traverse
  writes-ok [] ns size l w w' h =
      let none_written : ns ≡ [] = cc h in
      (ap sum_u64 none_written ∙ omega arith, ap written (cc h) ∙ sym (append-nil (written w)))
  writes-ok (bytes ∷ batch) ns size l w w' h =
      let (n, w_1, got, h_1) = bind-ok (write_one size l bytes) _ ns w w' h in
      let (ms, w_2, more, h_2) = bind-ok (traverse (write_one size l) batch) _ ns w_1 w' h_1 in
      let (_, w_3, wrote, h_3) =
        bind-ok (context (cannot_write_file_chunk (length bytes) l) (io.write_all bytes)) _ n w w_1
          got in
      let (total, wrote_rest) = writes-ok batch ms size l w_1 w_2 more in
      let put = lawful.write_all-ok bytes w w_3 (
        context-ok (cannot_write_file_chunk (length bytes) l) (io.write_all bytes) tt w w_3
          wrote) in
      let stays : w_2 ≡ w' = cc h_2 in
      let stays_1 : w_3 ≡ w_1 = cc h_3 in
      let same : ns ≡ n ∷ ms = cc h_2 in
      let sized : n ≡ size = cc h_3 in
      let sum : (n + sum_u64 ms) % 2 ^ 64 ≡ (suc (length batch) * size) % 2 ^ 64 =
        sum_step (length batch) size n (sum_u64 ms) sized total in
      (
        ap sum_u64 same ∙ sum,
        ap written (sym stays)
            ∙ wrote_rest
            ∙ ap (λ s. s ++ concat batch) (ap written (sym stays_1) ∙ put)
            ∙ append_assoc (written w) bytes (concat batch),
      )

-- `write_batch` appends the batch to what the writer holds, and returns the size it was given once for
-- each chunk of the batch, not once. Stated for a writer that keeps its promises.
pub write_batch-ok :
    (u : Uuids) (c : Ciphers) {W : Type 0} (io : Io W) (written : W → Bytes) (store : Bytes → Bytes)
    → IsIo io written store
    → (batch : List Bytes) (batch_encrypted_size total : ℕ) (l : FileChunkLocation u) (w w' : W)
    → write_batch u c io batch batch_encrypted_size l w ≡ returns (ok total, w')
    → (total ≡ (length batch * batch_encrypted_size) % 2 ^ 64)
      × (written w' ≡ written w ++ concat batch)
unfolding write_batch
write_batch-ok u c {W} io written store lawful batch size total l w w' h =
    let (ns, w_1, all, h_1) =
      bind-ok (traverse (write_one u io written store lawful size l) batch) _ total w w' h in
    let (summed, wrote) = writes-ok u io written store lawful batch ns size l w w_1 all in
    let stays : w_1 ≡ w' = cc h_1 in (cc (h_1, summed), ap written (sym stays) ∙ wrote)

module _ (u : Uuids) (c : Ciphers) {W : Type 0} (io : Io W) (retry : Retry W) (written : W → Bytes)
    (store : Bytes → Bytes) (lawful : IsIo io written store) (retries : IsRetry retry)
    (settings : RetrySettings) (location : FileLocation u) (version : ℕ) (key : Bytes) where
  abbrev stored : ℕ → Bytes
  stored = stored_chunk u store location

  chunks-Decrypts :
      (batch_index index : ℕ) (batch plain : List Bytes) (total : ℕ)
      → decrypt_chunks u c io batch_index location version key index batch ≡ ok (plain, total)
      → Decrypts c key version batch plain × (total ≡ sum_u64 (map (length {A = ℕ}) batch))
  unfolding decrypt_chunks
  chunks-Decrypts bi index [] plain total h = (cc h, cc h)
  chunks-Decrypts bi index (e ∷ batch) plain total h =
      let l = get_file_chunk_location u location (add_u32 bi index) in
      let rest = decrypt_chunks u c io bi location version key (index + 1) batch in
      elim (Result-cases (open_chunk u io c l key version e)) [
        | inr (x, failed) ↦ absurd (cc (rw (failed, decrypt_chunks) at h))
        | inl (p, opens) ↦ elim (Result-cases rest) [
          | inr (x, failed) ↦ absurd (cc (rw (opens, failed, decrypt_chunks) at h))
          | inl ((ps, n), found) ↦
              let h' = rw (opens, found, decrypt_chunks) at h in
              let (decrypts, counted) = chunks-Decrypts bi (index + 1) batch ps n found in
              let same : p ∷ ps ≡ plain = cc h' in
              (
                subst (Decrypts c key version (e ∷ batch)) same (
                  opened u c io retry written store lawful retries settings location version key l e
                      p opens,
                  decrypts,
                ),
                cc (h', counted),
              )
        ]
      ]

  batch-fetched :
      (is : List ℕ) (es : List Bytes) (w w' : W)
      → download_batch u c io retry settings location is w ≡ returns (ok es, w')
      → (written w' ≡ written w) × (es ≡ map stored is)
  unfolding download_batch traverse
  batch-fetched [] es w w' h = (ap written (cc h), cc h)
  batch-fetched (i ∷ is) es w w' h =
      let fetch = λ (i : ℕ).
        call retry settings (download_file_chunk u io (get_file_chunk_location u location i)) in
      let (e, w_1, got, h_1) = bind-ok (fetch i) _ es w w' h in
      let (rest, w_2, more, h_2) = bind-ok (traverse fetch is) _ es w_1 w' h_1 in
      let (kept, held) =
        fetched u c io retry written store lawful retries settings location version key
          (get_file_chunk_location u location i) w w_1 e got in
      let (kept_rest, held_rest) = batch-fetched is rest w_1 w_2 more in
      let stays : w_2 ≡ w' = cc h_2 in
      (ap written (sym stays) ∙ kept_rest ∙ kept, cc (h_2, held, held_rest))

  batch-ok :
      (bi : ℕ) (is : List ℕ) (ps : List Bytes) (n : ℕ) (w w' : W)
      → download_and_decrypt_batch u c io retry settings location version key (bi, is) w
        ≡ returns (ok (ps, n), w')
      → (written w' ≡ written w) × Decrypts c key version (map stored is) ps
  unfolding download_and_decrypt_batch decrypt_batch
  batch-ok bi is ps n w w' h =
      let (es, w_1, got, h_1) =
        bind-ok (download_batch u c io retry settings location is) _ (ps, n) w w' h in
      let (kept, held) = batch-fetched is es w w_1 got in
      let (decrypts, _) = chunks-Decrypts bi 0 es ps n (cc h_1) in
      let stays : w_1 ≡ w' = cc h_1 in
      (ap written (sym stays) ∙ kept, subst (λ xs. Decrypts c key version xs ps) held decrypts)

  batches-ok :
      (bs : List (ℕ × List ℕ)) (rs : List (List Bytes × ℕ)) (w w' : W)
      → traverse (download_and_decrypt_batch u c io retry settings location version key) bs w
        ≡ returns (ok rs, w')
      → (written w' ≡ written w)
        × Decrypts c key version
            (map stored (concat (map (λ (b : ℕ × List ℕ). b.1) bs)))
            (concat (map (λ (r : List Bytes × ℕ). r.0) rs))
  unfolding traverse
  batches-ok [] rs w w' h =
      let nothing : [] ≡ rs = cc h in
      (ap written (cc h), ap (λ xs. concat (map (λ (r : List Bytes × ℕ). r.0) xs)) (sym nothing))
  batches-ok ((bi, is) ∷ bs) rs w w' h =
      let step = download_and_decrypt_batch u c io retry settings location version key in
      let ((ps, n), w_1, got, h_1) = bind-ok (step (bi, is)) _ rs w w' h in
      let (more_rs, w_2, more, h_2) = bind-ok (traverse step bs) _ rs w_1 w' h_1 in
      let (kept, opens) = batch-ok bi is ps n w w_1 got in
      let (kept_rest, opens_rest) = batches-ok bs more_rs w_1 w_2 more in
      let stays : w_2 ≡ w' = cc h_2 in
      let same : (ps, n) ∷ more_rs ≡ rs = cc h_2 in
      let later = concat (map (λ (b : ℕ × List ℕ). b.1) bs) in
      let both =
        Decrypts-append c key version (map stored is) (map stored later) ps
          (concat (map (λ (r : List Bytes × ℕ). r.0) more_rs)) opens opens_rest in
      (
        ap written (sym stays) ∙ kept_rest ∙ kept,
        subst
            (λ xs.
              Decrypts c key version (map stored (is ++ later))
                (concat (map (λ (r : List Bytes × ℕ). r.0) xs)))
            same (rw (map-append stored is later) both),
      )

  all_writes-ok :
      (rs : List (ℕ × (List Bytes × ℕ))) (ns : List ℕ) (w w' : W)
      → traverse (write_indexed u c io retry settings location version key) rs w
        ≡ returns (ok ns, w')
      → written w' ≡ written w ++ concat (concat (map (λ (r : ℕ × (List Bytes × ℕ)). r.1.0) rs))
  unfolding traverse write_indexed
  all_writes-ok [] ns w w' h = ap written (cc h) ∙ sym (append-nil (written w))
  all_writes-ok ((i, (ps, size)) ∷ rs) ns w w' h =
      let (n, w_1, got, h_1) =
        bind-ok (write_indexed u c io retry settings location version key (i, (ps, size))) _ ns w w'
          h in
      let (ms, w_2, more, h_2) =
        bind-ok (traverse (write_indexed u c io retry settings location version key) rs) _ ns w_1 w'
          h_1 in
      let wrote =
        write_batch-ok u c io written store lawful ps size n (get_file_chunk_location u location i)
          w w_1 got in
      let wrote_rest = all_writes-ok rs ms w_1 w_2 more in
      let stays : w_2 ≡ w' = cc h_2 in
      let later = concat (map (λ (r : ℕ × (List Bytes × ℕ)). r.1.0) rs) in
      ap written (sym stays)
      ∙ wrote_rest
      ∙ ap (λ s. s ++ concat later) wrote.1
      ∙ append_assoc (written w) (concat ps) (concat later)
      ∙ ap (λ s. written w ++ s) (sym (concat-append ps later))

-- If the asynchronous download of a file succeeds, the writer has got, behind what it held, the plain
-- chunks that the servers' chunks decrypt to, each once and in order, though they are fetched and
-- decrypted in batches. Stated as for the sequential download.
pub download_and_decrypt_file_async-ok :
    (u : Uuids) (c : Ciphers) {W : Type 0} (io : Io W) (retry : Retry W) (written : W → Bytes)
    (store : Bytes → Bytes)
    → IsIo io written store
    → IsRetry retry
    → (settings : RetrySettings) (location : FileLocation u) (version : ℕ) (key : Bytes) (total : ℕ)
      (w w' : W)
    → download_and_decrypt_file_async u c io retry settings location version key w
      ≡ returns (ok total, w')
    → (plain : List Bytes) × Decrypts c key version
        (map (stored_chunk u store location) (range 0 location.chunks))
        plain
      × (written w' ≡ written w ++ concat plain)
unfolding download_and_decrypt_file_async
download_and_decrypt_file_async-ok u c {W} io retry written store lawful retries settings location
      version key total w w' h =
    let batches = batch_chunks location.chunks async_chunk_batch_size in
    let (rs, w_1, all, h_1) =
      bind-ok
        (traverse (download_and_decrypt_batch u c io retry settings location version key)
          (enumerate 0 batches))
        _ total w w' h in
    let (ns, w_2, written_all, h_2) =
      bind-ok (traverse (write_indexed u c io retry settings location version key) (enumerate 0 rs))
        _ total w_1 w' h_1 in
    let (_, w_3, flushed, h_3) =
      bind-ok (context cannot_flush_writer io.flush) _ total w_2 w' h_2 in
    let (kept, decrypts) =
      batches-ok u c io retry written store lawful retries settings location version key
        (enumerate 0 batches) rs w w_1 all in
    let wrote =
      all_writes-ok u c io retry written store lawful retries settings location version key
        (enumerate 0 rs) ns w_1 w_2 written_all in
    let kept_flush =
      lawful.flush-ok w_2 w_3 (context-ok cannot_flush_writer io.flush tt w_2 w_3 flushed) in
    let stays : w_3 ≡ w' = cc h_3 in
    let plain = concat (map (λ (r : List Bytes × ℕ). r.0) rs) in
    let in_order =
      ap concat (map-enumerate (λ (b : List ℕ). b) 0 batches ∙ map_id batches)
      ∙ (batch_chunks-concat location.chunks 16 (omega arith)).0 in
    (
      plain,
      subst (λ is. Decrypts c key version (map (stored_chunk u store location) is) plain) in_order
          decrypts,
      ap written (sym stays)
          ∙ kept_flush
          ∙ wrote
          ∙ ap (λ xs. written w_1 ++ concat (concat xs))
              (map-enumerate (λ (r : List Bytes × ℕ). r.0) 0 rs)
          ∙ ap (λ s. s ++ concat plain) kept,
    )
