-- ===== src/Upload/Finalized.antt =====
-- What an upload of src/v1/upload_file.rs has sent that succeeds, for given properties and positions.
use mathlib.Core.Path.{subst}
use rust_filen.Base.{
  ℕ, ◌<◌, ◌≡◌, refl, sym, ap, ◌∙◌, List, [], ◌∷◌, ◌++◌, append_assoc, none, true, ok, err, returns,
  All, arith, length, ensure, ltb, Bool-cases, Option-cases, inl, inr,
}
use rust_filen.Base.Text.{Bytes}
use rust_filen.Base.Effects.{Eff, lift, context, bind-ok, context-ok, context-cases, traverse}
use rust_filen.Backoff.{RetrySettings, Retry, call}
use rust_filen.Backoff.Call.{IsRetry, attempts-Good, call-attempts}
use rust_filen.Names.{Uuids}
use rust_filen.Chunks.{FileChunkPosition, dummy_chunk_index}
use rust_filen.Chunks.Spec.{Fits, layout}
use rust_filen.Chunks.Count.{dummy_chunk_index-length}
use rust_filen.Crypto.Primitives.{Ciphers}
use rust_filen.Api.{PlainResponsePayload}
use rust_filen.Upload.{
  file_chunk_size, UploadFileChunkResponsePayload, FileUploadProperties, FileUploadInfo, UploadIo,
  UploadError, bad_argument, upload_done_query_failed, upload_position, somes, upload_chunks,
  send_dummy_chunk,
}
use rust_filen.Upload.Accepted.{IsUploadIo, InFile, IsSent, AreSent, called, positions-ok}
use rust_filen.Upload.Whole.{
  find_failed, finalize_chunks_if_all_uploaded, upload_done_payload, mark_done, finalize_action,
  upload_and_finalize,
}

-- The server accepted the chunk.
abbrev pub IsAccepted : UploadFileChunkResponsePayload → Type 0
IsAccepted r = r.status ≡ true

find_failed-none :
    (rs : List UploadFileChunkResponsePayload) → find_failed rs ≡ none → All IsAccepted rs
find_failed-none [] h = tt
find_failed-none (r ∷ rs) h = elim (Bool-cases r.status) [
  | inl e ↦ (e, find_failed-none rs (rw e at h))
  | inr e ↦ absurd (cc (rw e at h))
]

module _ (u : Uuids) (c : Ciphers) {W : Type 0} (io : UploadIo u W) (retry : Retry W)
    (content : Bytes) (log : W → List (Bytes × Bytes)) (lawful : IsUploadIo io content log)
    (retries : IsRetry retry) (settings : RetrySettings) (api_key : Bytes)
    (properties : FileUploadProperties u) (fits : Fits file_chunk_size (length content)) where
  not_empty :
      (w w' : W) (r : Unit {0}) (e : UploadError u c io)
      → lift (ensure (ltb 0 (length content)) e) w ≡ returns (ok r, w')
      → 0 < length content
  not_empty w w' r e h = elim (Bool-cases (ltb 0 (length content))) [
    | inl t ↦ ground (arith, t)
    | inr f ↦ absurd (cc (rw f at h))
  ]

  dummy-ok :
      (r : UploadFileChunkResponsePayload) (w w' : W)
      → send_dummy_chunk u c io api_key properties retry settings file_chunk_size (length content) w
        ≡ returns (ok r, w')
      → (dummy : Bytes × Bytes) × IsSent u c io api_key properties
          (length (layout file_chunk_size (length content)))
          []
          dummy
        × (log w' ≡ log w ++ dummy ∷ [])
  unfolding send_dummy_chunk
  dummy-ok r w w' h =
      let no_size : UploadError u c io = bad_argument "file size should be > 0" in
      let (_, w_1, checked, h_1) =
        bind-ok (lift (ensure (ltb 0 (length content)) no_size)) _ r w w' h in
      let stays : w ≡ w_1 = cc checked in
      let free =
        dummy_chunk_index-length file_chunk_size (length content) fits
          (not_empty w w_1 tt no_size checked) in
      let (dummy, is, logged) =
        called u c io retry content log lawful retries settings api_key properties
          (dummy_chunk_index file_chunk_size (length content)) [] r w_1 w' h_1 in
      (
        dummy,
        subst (λ (i : ℕ). IsSent u c io api_key properties i [] dummy) free is,
        logged ∙ ap (λ l. l ++ dummy ∷ []) (ap log (sym stays)),
      )

  -- The done request, with its context.
  abbrev ask_done : Eff W PlainResponsePayload (UploadError u c io)
  ask_done = context upload_done_query_failed (
      io.upload_done
        (upload_done_payload u c io retry settings api_key (length content) properties))

  asked :
      (r : PlainResponsePayload) (w w' : W)
      → call retry settings ask_done w ≡ returns (ok r, w')
      → log w' ≡ log w
  asked r w w' h =
      let counted =
        sym (
          call-attempts retry retries PlainResponsePayload (UploadError u c io) settings ask_done w)
        ∙ h in
      let payload = upload_done_payload u c io retry settings api_key (length content) properties in
      attempts-Good (λ v. log v ≡ log w) (λ _ v'. log v' ≡ log w) ask_done
        (λ v v' k. (
          λ a e.
              lawful.done_keeps payload v v' (ok a)
                (context-ok upload_done_query_failed (io.upload_done payload) a v v' e)
              ∙ k,
          λ x e.
              elim (context-cases upload_done_query_failed (io.upload_done payload) (err x) v v'
                e) [
                  | inl (_, _, same) ↦ absurd (cc same)
                  | inr (y, found, _) ↦ lawful.done_keeps payload v v' (err y) found ∙ k
                ],
        ))
        settings.max_tries w w' r refl counted

  done-ok :
      (responses : List UploadFileChunkResponsePayload) (r : UploadFileChunkResponsePayload)
      (info : FileUploadInfo u) (w w' : W)
      → mark_done u c io retry settings api_key (length content) properties responses r w
        ≡ returns (ok info, w')
      → (log w' ≡ log w) × (info ≡ record { properties = properties; chunk_responses = responses })
  unfolding mark_done
  done-ok responses r info w w' h = elim (Bool-cases r.status) [
    | inr e ↦ absurd (cc (rw (e, mark_done) at h))
    | inl e ↦
        let h' = rw (e, mark_done) at h in
        let (answer, w_1, got, h_1) = bind-ok (call retry settings ask_done) _ info w w' h' in
        let kept = asked answer w w_1 got in
        elim (Bool-cases answer.status) [
          | inr f ↦ absurd (cc (rw f at h_1))
          | inl f ↦
              let h_2 = rw f at h_1 in
              let stays : w_1 ≡ w' = cc h_2 in (ap log (sym stays) ∙ kept, cc h_2)
        ]
  ]

  -- The log after the chunks, the dummy chunk and the done request.
  in_order :
      (w w_2 w_1 w_3 w' : W) (sent : List (Bytes × Bytes)) (dummy : Bytes × Bytes)
      → log w_2 ≡ log w ++ sent
      → w_2 ≡ w_1
      → log w_3 ≡ log w_1 ++ dummy ∷ []
      → log w' ≡ log w_3
      → log w' ≡ log w ++ (sent ++ dummy ∷ [])
  in_order w w_2 w_1 w_3 w' sent dummy logged stays logged_dummy kept =
      kept
      ∙ logged_dummy
      ∙ ap (λ l. l ++ dummy ∷ []) (ap log (sym stays) ∙ logged)
      ∙ append_assoc (log w) sent (dummy ∷ [])

  pub whole :
      (positions : List FileChunkPosition) (info : FileUploadInfo u) (w w' : W)
      → All (InFile content) positions
      → upload_and_finalize u c io retry settings api_key (length content) properties positions w
        ≡ returns (ok info, w')
      → (sent : List (Bytes × Bytes)) × (dummy : Bytes × Bytes) × AreSent u c io api_key properties
          content positions sent
        × IsSent u c io api_key properties
            (length (layout file_chunk_size (length content)))
            []
            dummy
        × (log w' ≡ log w ++ (sent ++ dummy ∷ []))
        × (info.properties ≡ properties)
        × All IsAccepted info.chunk_responses
        × (length info.chunk_responses ≡ length positions)
  unfolding upload_and_finalize upload_chunks finalize_chunks_if_all_uploaded finalize_action
  whole positions info w w' inside h =
      let upload_all = upload_chunks u c io api_key properties retry settings positions in
      let (rs, w_1, got, h_1) = bind-ok upload_all _ info w w' h in
      let step = upload_position u c io api_key properties retry settings in
      let (os, w_2, each, h_2) = bind-ok (traverse step positions) _ rs w w_1 got in
      let (sent, are, logged, counted) =
        positions-ok u c io retry content log lawful retries settings api_key properties positions
          os w w_2 inside each in
      let stays : w_2 ≡ w_1 = cc h_2 in
      let same : somes u c io api_key properties retry settings os ≡ rs = cc h_2 in
      elim (Option-cases (find_failed rs)) [
        | inr (failed, e) ↦ absurd (cc (rw e at h_1))
        | inl e ↦
            let h_3 = rw e at h_1 in
            let send =
              send_dummy_chunk u c io api_key properties retry settings file_chunk_size
                (length content) in
            let (r, w_3, dummy_sent, h_4) = bind-ok send _ info w_1 w' h_3 in
            let (dummy, is, logged_dummy) = dummy-ok r w_1 w_3 dummy_sent in
            let (kept, made) = done-ok rs r info w_3 w' h_4 in
            let responses : info.chunk_responses ≡ rs =
              ap (λ (x : FileUploadInfo u). x.chunk_responses) made in
            (
              sent,
              dummy,
              are,
              is,
              in_order w w_2 w_1 w_3 w' sent dummy logged stays logged_dummy kept,
              ap (λ (x : FileUploadInfo u). x.properties) made,
              subst (All IsAccepted) (sym responses) (find_failed-none rs e),
              ap (length {A = UploadFileChunkResponsePayload}) (responses ∙ sym same) ∙ counted,
            )
      ]
