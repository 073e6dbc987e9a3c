-- ===== src/Upload/Total.antt =====
-- An upload of src/v1/upload_file.rs to servers that answer and accept succeeds.
use mathlib.Core.Path.{subst}
use rust_filen.Base.{
  ℕ, suc, ◌*◌, ◌^◌, ◌<◌, ◌≡◌, refl, sym, ap, ◌∙◌, List, some, true, ok, returns, arith, length,
}
use rust_filen.Base.Text.{Bytes}
use rust_filen.Base.Utf8.{is_utf8}
use rust_filen.Backoff.{RetrySettings, Retry}
use rust_filen.Backoff.Call.{IsRetry}
use rust_filen.Names.{Uuids}
use rust_filen.Chunks.Collect.{collect-new}
use rust_filen.Chunks.Spec.{Fits, chunk_count, layout}
use rust_filen.Crypto.Primitives.{Ciphers, IsCiphers, IsBytes}
use rust_filen.Files.{FileProperties, Texts, WritesFile}
use rust_filen.Files.Upload.{
  UploadDraws, AreDrawn, from_file_properties-decrypt, from_file_properties-Keyed,
}
use rust_filen.Upload.{file_chunk_size, FileUploadInfo, UploadIo}
use rust_filen.Upload.Accepted.{IsUploadIo}
use rust_filen.Upload.Complete.{positions_from-InFile}
use rust_filen.Upload.EncryptAndUpload.{encrypt_and_upload_file, with_properties, with_positions}
use rust_filen.Upload.Whole.{upload_and_finalize}
use rust_filen.Upload.Accepting.{Accepts, finalized}

-- The upload of a file succeeds, in version 1, within one round of the count of its chunks for each
-- chunk and one more, and as many calls of the iterator. Stated for a file that can be read, has the
-- given size, is not empty, has a key of 32 bytes and fewer than 2^32 chunks, the offset behind the last
-- of which is below 2^64; for names and types of UTF-8 bytes, JSON that is read back, and draws of the
-- right shapes; and for servers that answer and accept everything, and crates that keep their promises.
pub encrypt_and_upload_file-total :
    (u : Uuids) (t : Texts) (c : Ciphers) {W : Type 0} (io : UploadIo u W) (retry : Retry W)
    (content : Bytes) (log : W → List (Bytes × Bytes))
    → IsCiphers c
    → IsUploadIo io content log
    → Accepts io
    → IsRetry retry
    → (settings : RetrySettings) (api_key : Bytes) (p : FileProperties) (parent : u.Uuid)
      (key : Bytes) (draws : UploadDraws u) (w : W)
    → p.size ≡ length content
    → 0 < p.size
    → length p.key ≡ 32
    → WritesFile t p
    → AreDrawn draws
    → Fits file_chunk_size p.size
    → chunk_count file_chunk_size p.size * file_chunk_size < 2 ^ 64
    → IsBytes p.name
    → is_utf8 p.name ≡ true
    → IsBytes p.mime
    → is_utf8 p.mime ≡ true
    → (info : FileUploadInfo u) × (w' : W) × (encrypt_and_upload_file u t c io retry settings
          api_key
          (suc (chunk_count file_chunk_size p.size))
          p
          1
          parent
          key
          draws
          w
        ≡ some (returns (ok info, w')))
unfolding encrypt_and_upload_file with_properties with_positions
encrypt_and_upload_file-total u t c {W} io retry content log lawful reads accepts retries settings
      api_key p parent key draws w size more keyed json drawn fits no_wrap nb nu mb mu =
    let fuel = suc (chunk_count file_chunk_size p.size) in
    let (properties, made, _, _, _, _, _) =
      from_file_properties-decrypt u t c lawful p 1 parent key draws json drawn fits no_wrap nb nu
        mb mu in
    let (same_key, first_version) =
      from_file_properties-Keyed u t c fuel p 1 parent key draws properties made in
    let (s, started, yields) = collect-new file_chunk_size p.size fits in
    let inside =
      positions_from-InFile file_chunk_size content 0 (chunk_count file_chunk_size (length content))
        (omega (arith, size)) (omega arith) in
    let (info, w', ran) =
      finalized u c io accepts retry content log reads retries settings api_key properties
        (ap (length {A = ℕ}) same_key ∙ keyed) first_version
        (layout file_chunk_size (length content)) w (omega (arith, size)) inside in
    let ran' : upload_and_finalize u c io retry settings api_key p.size properties
          (layout file_chunk_size p.size) w
        ≡ returns (ok info, w') =
      subst
        (λ (n : ℕ).
          upload_and_finalize u c io retry settings api_key n properties (layout file_chunk_size n)
            w
          ≡ returns (ok info, w'))
        (sym size) ran in
    (
      info,
      w',
      rw (made, encrypt_and_upload_file, with_properties, started, with_positions, yields, ran')
          refl,
    )
