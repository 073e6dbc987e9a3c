-- ===== src/Upload/Complete.antt =====
-- A whole upload of src/v1/upload_file.rs that succeeds.
use mathlib.Core.Path.{subst}
use rust_filen.Base.{
  ℕ, zero, suc, ◌+◌, ◌<◌, ◌≡◌, refl, sym, ap, ◌∙◌, List, [], ◌∷◌, ◌++◌, Option, none, some, ok,
  Outcome, returns, panics, All, arith, length, Option-cases, inl, inr,
}
use rust_filen.Base.Text.{Bytes}
use rust_filen.Backoff.{RetrySettings, Retry}
use rust_filen.Backoff.Call.{IsRetry}
use rust_filen.Names.{Uuids}
use rust_filen.Chunks.{FileChunkPositions, new, collect}
use rust_filen.Chunks.Collect.{collect-new, collect_unique}
use rust_filen.Chunks.Spec.{Fits, chunk_count, positions_from, layout, lt-chunk_count}
use rust_filen.Crypto.Primitives.{Ciphers}
use rust_filen.Files.{FileProperties, Texts}
use rust_filen.Files.Upload.{UploadDraws, from_file_properties}
use rust_filen.Upload.{file_chunk_size, FileUploadProperties, FileUploadInfo, UploadIo}
use rust_filen.Upload.Accepted.{IsUploadIo, InFile, IsSent, AreSent}
use rust_filen.Upload.EncryptAndUpload.{encrypt_and_upload_file, with_properties, with_positions}
use rust_filen.Upload.Finalized.{IsAccepted, whole}
use rust_filen.Upload.Whole.{upload_and_finalize}

-- The chunks of the layout lie in the file.
pub positions_from-InFile :
    (size : ℕ) (content : Bytes) (i n : ℕ)
    → 0 < size
    → i + n ≡ chunk_count size (length content)
    → All (InFile content) (positions_from size (length content) i n)
positions_from-InFile size content i zero pos e = tt
positions_from-InFile size content i (suc n) pos e =
    let inside = (lt-chunk_count size (length content) pos i).0 (omega arith) in
    (omega (arith, inside), positions_from-InFile size content (suc i) n pos (omega arith))

module _ (u : Uuids) (t : Texts) (c : Ciphers) {W : Type 0} (io : UploadIo u W) (retry : Retry W)
    (settings : RetrySettings) (api_key : Bytes) (p : FileProperties)
    (fits : Fits file_chunk_size p.size) where
  -- An upload that ends has uploaded the chunks of the layout, with the properties of the file.
  made_of :
      (fuel version : ℕ) (parent : u.Uuid) (key : Bytes) (draws : UploadDraws u)
      (info : FileUploadInfo u) (w w' : W)
      → encrypt_and_upload_file u t c io retry settings api_key fuel p version parent key draws w
        ≡ some (returns (ok info, w'))
      → (properties : FileUploadProperties u) × (from_file_properties u t c fuel p version parent
            key draws
          ≡ some (returns properties))
        × (upload_and_finalize u c io retry settings api_key p.size properties
              (layout file_chunk_size p.size)
              w
            ≡ returns (ok info, w'))
  unfolding encrypt_and_upload_file with_properties with_positions
  made_of fuel version parent key draws info w w' h =
      let make = from_file_properties u t c fuel p version parent key draws in
      let (s, started, yields) = collect-new file_chunk_size p.size fits in
      go make refl s started yields
    where
      go :
          (o : Option (Outcome (FileUploadProperties u)))
          → from_file_properties u t c fuel p version parent key draws ≡ o
          → (s : FileChunkPositions) → new file_chunk_size p.size ≡ returns s
          → collect (suc (chunk_count file_chunk_size p.size)) s
            ≡ some (layout file_chunk_size p.size)
          → (properties : FileUploadProperties u) × (from_file_properties u t c fuel p version
                parent key draws
              ≡ some (returns properties))
            × (upload_and_finalize u c io retry settings api_key p.size properties
                  (layout file_chunk_size p.size)
                  w
                ≡ returns (ok info, w'))
      go none e s started yields = absurd (cc (rw (e, encrypt_and_upload_file) at h))
      go (some panics) e s started yields =
          absurd (cc (rw (e, encrypt_and_upload_file, with_properties) at h))
      go (some (returns properties)) e s started yields =
          let h' = rw (e, encrypt_and_upload_file, with_properties, started, with_positions) at h in
          elim (Option-cases (collect fuel s)) [
            | inl out ↦ absurd (cc (rw out at h'))
            | inr (ps, found) ↦
                let same : ps ≡ layout file_chunk_size p.size =
                  collect_unique fuel (suc (chunk_count file_chunk_size p.size)) s ps
                    (layout file_chunk_size p.size) found yields in
                (properties, e, cc (rw (found, same) at h'))
          ]

-- If the upload of a file that can be read succeeds, its upload properties are those that are made of
-- the file's properties, and the server has answered, in this order and with nothing in between, one
-- upload for each chunk of the file's layout, whose text is what the bytes of the file at that place
-- are encrypted to, and an empty chunk under the index behind the last chunk's, which is the number of
-- chunks; and it accepted every chunk of the file. Stated for a file of the given size with fewer than
-- 2^32 chunks, and a reader, a server log and a crate `retry` that keep their promises; uploads that
-- are not answered are not counted.
pub encrypt_and_upload_file-ok :
    (u : Uuids) (t : Texts) (c : Ciphers) {W : Type 0} (io : UploadIo u W) (retry : Retry W)
    (content : Bytes) (log : W → List (Bytes × Bytes))
    → IsUploadIo io content log
    → IsRetry retry
    → (settings : RetrySettings) (api_key : Bytes) (p : FileProperties) → p.size ≡ length content
    → Fits file_chunk_size (length content)
    → (fuel version : ℕ) (parent : u.Uuid) (key : Bytes) (draws : UploadDraws u)
      (info : FileUploadInfo u) (w w' : W)
    → encrypt_and_upload_file u t c io retry settings api_key fuel p version parent key draws w
      ≡ some (returns (ok info, w'))
    → (sent : List (Bytes × Bytes)) × (dummy : Bytes × Bytes) × (from_file_properties u t c fuel p
          version parent key draws
        ≡ some (returns info.properties))
      × AreSent u c io api_key info.properties content
          (layout file_chunk_size (length content))
          sent
      × IsSent u c io api_key info.properties
          (length (layout file_chunk_size (length content)))
          []
          dummy
      × (log w' ≡ log w ++ (sent ++ dummy ∷ []))
      × All IsAccepted info.chunk_responses
      × (length info.chunk_responses ≡ length (layout file_chunk_size (length content)))
encrypt_and_upload_file-ok u t c {W} io retry content log lawful retries settings api_key p size
      fits fuel version parent key draws info w w' h =
    let fits' = subst (Fits file_chunk_size) (sym size) fits in
    let (properties, made, ran) =
      made_of u t c io retry settings api_key p fits' fuel version parent key draws info w w' h in
    let inside =
      positions_from-InFile file_chunk_size content 0 (chunk_count file_chunk_size (length content))
        (omega arith) (omega arith) in
    let ran' =
      subst
        (λ (n : ℕ).
          upload_and_finalize u c io retry settings api_key n properties (layout file_chunk_size n)
            w
          ≡ returns (ok info, w'))
        size ran in
    let (sent, dummy, are, is, logged, same, accepted, counted) =
      whole u c io retry content log lawful retries settings api_key properties fits
        (layout file_chunk_size (length content)) info w w' inside ran' in
    (
      sent,
      dummy,
      made ∙ ap (λ x. some (returns x)) (sym same),
      subst
          (λ (x : FileUploadProperties u).
            AreSent u c io api_key x content (layout file_chunk_size (length content)) sent)
          (sym same) are,
      subst
          (λ (x : FileUploadProperties u).
            IsSent u c io api_key x (length (layout file_chunk_size (length content))) [] dummy)
          (sym same) is,
      logged,
      accepted,
      counted,
    )
