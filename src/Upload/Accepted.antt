-- ===== src/Upload/Accepted.antt =====
-- What an upload of src/v1/upload_file.rs that succeeds has sent.
use mathlib.Core.Path.{subst}
use rust_filen.Base.{
  ℕ, suc, ◌+◌, ◌≤◌, ◌≡◌, refl, sym, ap, ◌∙◌, List, [], ◌∷◌, ◌++◌, append_assoc, append-nil, Option,
  some, Result, ok, err, returns, All, length, take, drop, ◌==◌, map_err, map_err-ok, Bool-cases,
  inl, inr,
}
use rust_filen.Base.Text.{Bytes}
use rust_filen.Base.Effects.{
  Eff, ◌>>◌, lift, context, traverse, bind-ok, bind-err, context-ok, context-cases,
}
use rust_filen.Backoff.{RetrySettings, Retry, call}
use rust_filen.Backoff.Call.{IsRetry, attempts-Good, call-attempts}
use rust_filen.Names.{Uuids}
use rust_filen.Chunks.{FileChunkPosition}
use rust_filen.Chunks.Cover.{slice}
use rust_filen.Crypto.Primitives.{Ciphers, CryptoError}
use rust_filen.Crypto.FileChunk.{encrypt_file_chunk}
use rust_filen.Api.{PlainResponsePayload}
use rust_filen.Upload.{
  UploadFileChunkResponsePayload, UploadDoneRequestPayload, FileUploadProperties, UploadIo,
  UploadError, chunk_encryption_error, upload_query_failed, to_api_endpoint, file_key_bytes,
  draw_and_encrypt, encrypt_and_upload_chunk, read_chunk, process, upload_position, somes,
}

-- A file of the given content that can be read at every place within it, and the uploads that were
-- answered, which only an upload that is answered adds to.
pub record IsUploadIo {u : Uuids} {W : Type 0} (io : UploadIo u W) (content : Bytes)
    (log : W → List (Bytes × Bytes)) : Type 1 where
  pub reads :
      (s n : ℕ) (w : W)
      → s + n ≤ length content
      → (w' : W) × ((io.seek s >> io.read_exact n) w ≡ returns (ok (take n (drop s content)), w'))
        × (log w' ≡ log w)
  pub upload_logs :
      (endpoint body : Bytes) (w w' : W) (r : UploadFileChunkResponsePayload)
      → io.upload_to_filen endpoint body w ≡ returns (ok r, w')
      → log w' ≡ log w ++ (endpoint, body) ∷ []
  pub upload_fails :
      (endpoint body : Bytes) (w w' : W) (e : io.QueryError)
      → io.upload_to_filen endpoint body w ≡ returns (err e, w')
      → log w' ≡ log w
  pub done_keeps :
      (payload : UploadDoneRequestPayload u) (w w' : W)
      (r : Result PlainResponsePayload io.QueryError)
      → io.upload_done payload w ≡ returns (r, w')
      → log w' ≡ log w
  pub draw_keeps : (w : W) → log (io.draw_iv w).1 ≡ log w

-- Within the file.
abbrev pub InFile : Bytes → FileChunkPosition → Type 0
InFile content p = p.start_position + p.chunk_size ≤ length content

module _ (u : Uuids) (c : Ciphers) {W : Type 0} (io : UploadIo u W) (api_key : Bytes)
    (properties : FileUploadProperties u) where
  -- The upload of `chunk` under `index`: its endpoint, and a text that the chunk was encrypted to.
  abbrev pub IsSent : ℕ → Bytes → Bytes × Bytes → Type 0
  IsSent index chunk (endpoint, body) =
      (endpoint ≡ to_api_endpoint u c io properties index api_key)
      × ((iv : Bytes) × (encrypt_file_chunk c chunk properties.file_key properties.version iv
            ≡ ok body))

  -- One upload for each position, of what the file holds there.
  abbrev pub AreSent : Bytes → List FileChunkPosition → List (Bytes × Bytes) → Type 0
  AreSent content [] sent = sent ≡ []
  AreSent content (p ∷ ps) [] = p ∷ ps ≡ []
  AreSent content (p ∷ ps) (s ∷ sent) = IsSent p.index (slice content p) s × AreSent content ps sent

module _ (u : Uuids) (c : Ciphers) {W : Type 0} (io : UploadIo u W) (retry : Retry W)
    (content : Bytes) (log : W → List (Bytes × Bytes)) (lawful : IsUploadIo io content log)
    (retries : IsRetry retry) (settings : RetrySettings) (api_key : Bytes)
    (properties : FileUploadProperties u) where
  -- After an upload that was answered.
  abbrev Logged : ℕ → Bytes → W → W → Type 0
  Logged index chunk w w' =
      (sent : Bytes × Bytes) × IsSent u c io api_key properties index chunk sent
      × (log w' ≡ log w ++ sent ∷ [])

  abbrev upload : ℕ → Bytes → Eff W UploadFileChunkResponsePayload (UploadError u c io)
  upload = encrypt_and_upload_chunk u c io api_key properties

  key-ok :
      (key : Bytes) (v v' : W)
      → lift (file_key_bytes u c io properties.file_key) v ≡ returns (ok key, v')
      → (properties.file_key ≡ key) × (v ≡ v')
  key-ok key v v' h = elim (Bool-cases (length properties.file_key == 32)) [
    | inl e ↦ let h' = rw (e, file_key_bytes) at h in (cc h', cc h')
    | inr e ↦ let h' = rw (e, file_key_bytes) at h in absurd (cc h')
  ]

  sealed-keeps :
      (chunk key : Bytes) (v v' : W) (r : Result Bytes (UploadError u c io))
      → draw_and_encrypt u c io chunk key properties.version v ≡ returns (r, v')
      → (log v' ≡ log v)
        × (r
            ≡ map_err
                (chunk_encryption_error (length chunk) (length key) properties.version)
                (encrypt_file_chunk c chunk key properties.version (io.draw_iv v).0))
  unfolding draw_and_encrypt
  sealed-keeps chunk key v v' r h =
      let moved : (io.draw_iv v).1 ≡ v' = cc h in (ap log (sym moved) ∙ lawful.draw_keeps v, cc h)

  -- The request of an upload, with its context.
  abbrev ask : ℕ → Bytes → Eff W UploadFileChunkResponsePayload (UploadError u c io)
  ask index body =
      let endpoint = to_api_endpoint u c io properties index api_key in
      context (upload_query_failed endpoint (length body)) (io.upload_to_filen endpoint body)

  -- A failed request is not logged.
  ask-err :
      (index : ℕ) (body : Bytes) (e : UploadError u c io) (v v' : W)
      → ask index body v ≡ returns (err e, v')
      → log v' ≡ log v
  ask-err index body e v v' h =
      let endpoint = to_api_endpoint u c io properties index api_key in
      elim (context-cases (upload_query_failed endpoint (length body))
        (io.upload_to_filen endpoint body) (err e) v v' h) [
          | inl (_, _, same) ↦ absurd (cc same)
          | inr (x, found, _) ↦ lawful.upload_fails endpoint body v v' x found
        ]

  upload-ok :
      (index : ℕ) (chunk : Bytes) (r : UploadFileChunkResponsePayload) (v v' : W)
      → upload index chunk v ≡ returns (ok r, v')
      → Logged index chunk v v'
  unfolding encrypt_and_upload_chunk
  upload-ok index chunk r v v' h =
      let (key, w_1, keyed, h_1) =
        bind-ok (lift (file_key_bytes u c io properties.file_key)) _ r v v' h in
      let (same_key, stays) = key-ok key v w_1 keyed in
      let (body, w_2, sealed, h_2) =
        bind-ok (draw_and_encrypt u c io chunk key properties.version) _ r w_1 v' h_1 in
      let (kept, made) = sealed-keeps chunk key w_1 w_2 (ok body) sealed in
      let endpoint = to_api_endpoint u c io properties index api_key in
      let answered =
        context-ok (upload_query_failed endpoint (length body)) (io.upload_to_filen endpoint body) r
          w_2 v' h_2 in
      let iv = (io.draw_iv w_1).0 in
      let wrap : CryptoError → UploadError u c io =
        chunk_encryption_error (length chunk) (length key) properties.version in
      let encrypted : encrypt_file_chunk c chunk key properties.version iv ≡ ok body =
        map_err-ok wrap (encrypt_file_chunk c chunk key properties.version iv) body (sym made) in
      (
        (endpoint, body),
        (
          refl,
          (
            iv,
            subst (λ k. encrypt_file_chunk c chunk k properties.version iv ≡ ok body) (sym same_key)
                encrypted,
          ),
        ),
        lawful.upload_logs endpoint body w_2 v' r answered
            ∙ ap (λ l. l ++ (endpoint, body) ∷ []) (kept ∙ ap log (sym stays)),
      )

  upload-err :
      (index : ℕ) (chunk : Bytes) (e : UploadError u c io) (v v' : W)
      → upload index chunk v ≡ returns (err e, v')
      → log v' ≡ log v
  unfolding encrypt_and_upload_chunk
  upload-err index chunk e v v' h =
      elim (bind-err (lift (file_key_bytes u c io properties.file_key)) _ e v v' h) [
        | inl bad_key ↦ ap log (let same : v ≡ v' = cc bad_key in sym same)
        | inr (key, w_1, keyed, h_1) ↦
            elim (bind-err (draw_and_encrypt u c io chunk key properties.version) _ e w_1 v' h_1) [
              | inl not_sealed ↦
                  (sealed-keeps chunk key w_1 v' (err e) not_sealed).0
                  ∙ ap log (sym (key-ok key v w_1 keyed).1)
              | inr (body, w_2, sealed, h_2) ↦
                  ask-err index body e w_2 v' h_2
                  ∙ (sealed-keeps chunk key w_1 w_2 (ok body) sealed).0
                  ∙ ap log (sym (key-ok key v w_1 keyed).1)
            ]
      ]

  -- The upload of a chunk with retries.
  pub called :
      (index : ℕ) (chunk : Bytes) (r : UploadFileChunkResponsePayload) (w w' : W)
      → call retry settings (upload index chunk) w ≡ returns (ok r, w')
      → Logged index chunk w w'
  called index chunk r w w' h =
      let counted =
        sym (
          call-attempts retry retries UploadFileChunkResponsePayload (UploadError u c io) settings
            (upload index chunk) w)
        ∙ h in
      attempts-Good (λ v. log v ≡ log w) (λ _ v'. Logged index chunk w v') (upload index chunk)
        (λ v v' k. (
          λ a e.
              let (sent, is, logged) = upload-ok index chunk a v v' e in
              (sent, is, logged ∙ ap (λ l. l ++ sent ∷ []) k),
          λ x e. upload-err index chunk x v v' e ∙ k,
        ))
        settings.max_tries w w' r refl counted

  abbrev step :
      FileChunkPosition → Eff W (Option UploadFileChunkResponsePayload) (UploadError u c io)
  step = upload_position u c io api_key properties retry settings

  read-ok :
      (p : FileChunkPosition) (w w' : W)
      → (io.seek p.start_position >> io.read_exact p.chunk_size) w
        ≡ returns (ok (slice content p), w')
      → read_chunk u c io api_key properties p w ≡ returns (ok (slice content p), w')
  unfolding read_chunk
  read-ok p w w' h = rw h refl

  position-ok :
      (p : FileChunkPosition) (o : Option UploadFileChunkResponsePayload) (w w' : W)
      → InFile content p
      → step p w ≡ returns (ok o, w')
      → Logged p.index (slice content p) w w'
        × ((r : UploadFileChunkResponsePayload) × (o ≡ some r))
  unfolding upload_position process
  position-ok p o w w' inside h =
      let (w_1, found, kept) = lawful.reads p.start_position p.chunk_size w inside in
      let h' : process u c io api_key properties retry settings p
            (returns (ok (slice content p), w_1))
          ≡ returns (ok o, w') =
        ap (process u c io api_key properties retry settings p) (sym (read-ok p w w_1 found)) ∙ h in
      let (r, w_2, sent, h_2) =
        bind-ok (call retry settings (upload p.index (slice content p))) _ o w_1 w' h' in
      let stays : w_2 ≡ w' = cc h_2 in
      let (one, is, logged) = called p.index (slice content p) r w_1 w_2 sent in
      ((one, is, ap log (sym stays) ∙ logged ∙ ap (λ l. l ++ one ∷ []) kept), (r, cc h_2))

  pub positions-ok :
      (ps : List FileChunkPosition) (os : List (Option UploadFileChunkResponsePayload)) (w w' : W)
      → All (InFile content) ps
      → traverse step ps w ≡ returns (ok os, w')
      → (sent : List (Bytes × Bytes)) × AreSent u c io api_key properties content ps sent
        × (log w' ≡ log w ++ sent)
        × (length (somes u c io api_key properties retry settings os) ≡ length ps)
  unfolding traverse
  positions-ok [] os w w' h e =
      let nothing : [] ≡ os = cc e in
      (
        [],
        refl,
        ap log (cc e) ∙ sym (append-nil (log w)),
        ap (λ xs. length (somes u c io api_key properties retry settings xs)) (sym nothing),
      )
  positions-ok (p ∷ ps) os w w' (inside, all) e =
      let (o, w_1, got, e_1) = bind-ok (step p) _ os w w' e in
      let (rest, w_2, more, e_2) = bind-ok (traverse step ps) _ os w_1 w' e_1 in
      let ((one, is, logged), (r, found)) = position-ok p o w w_1 inside got in
      let (sent, are, logged_rest, counted) = positions-ok ps rest w_1 w_2 all more in
      let stays : w_2 ≡ w' = cc e_2 in
      let same : some r ∷ rest ≡ os = cc (e_2, found) in
      (
        one ∷ sent,
        (is, are),
        ap log (sym stays)
            ∙ logged_rest
            ∙ ap (λ l. l ++ sent) logged
            ∙ append_assoc (log w) (one ∷ []) sent,
        ap (λ xs. length (somes u c io api_key properties retry settings xs)) (sym same)
            ∙ ap suc counted,
      )
