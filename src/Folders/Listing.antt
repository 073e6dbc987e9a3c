-- ===== src/Folders/Listing.antt =====
-- The listing of a folder (`download_dir_request` of src/v1/download_dir.rs under
-- `RetrySettings::call`), and the items that it gives.
use rust_filen.Base.{
  ℕ, ◌≡◌, refl, sym, ◌∙◌, List, ◌++◌, map, Result, ok, err, returns, ◌⊎◌, inl, inr,
}
use rust_filen.Base.Text.{Bytes}
use rust_filen.Base.Effects.{Eff, context-ok, context-cases}
use rust_filen.Backoff.{RetrySettings, Retry, call}
use rust_filen.Backoff.Call.{IsRetry, Keeps, attempts, attempts-Good, attempts-Kept, call-attempts}
use rust_filen.Names.{Uuids}
use rust_filen.Api.{ResponsePayload}
use rust_filen.Folders.{
  FolderData, FileData, DownloadDirRequestPayload, DownloadDirResponseData, DirIo, DownloadDirError,
  download_dir_query_failed, download_dir_request,
}

abbrev pub Item : Uuids → Type 0
Item u = FolderData u ⊎ FileData u

-- The items of a folder's content: its folders, then its files.
abbrev pub items : (u : Uuids) → DownloadDirResponseData u → List (Item u)
items u contents = map inl contents.folders ++ map inr contents.files

-- Listing a folder leaves a record as it is.
abbrev pub Keeping : {u : Uuids} {W L : Type 0} → DirIo u W → (W → L) → Type 0
Keeping {u} {W} io log =
    (payload : DownloadDirRequestPayload u) (w w' : W)
    (r : Result (ResponsePayload (DownloadDirResponseData u)) io.QueryError)
    → io.download_dir payload w ≡ returns (r, w')
    → log w' ≡ log w

-- What the listing of a folder gives, with retries.
abbrev pub listing :
    (u : Uuids) {W : Type 0} (io : DirIo u W)
    → Retry W
    → RetrySettings
    → Bytes
    → u.Uuid
    → Eff W (ResponsePayload (DownloadDirResponseData u)) (DownloadDirError io.QueryError)
listing u io retry settings api_key folder_uuid =
    call retry settings
      (download_dir_request u io (record { api_key = api_key; uuid = folder_uuid }))

module _ (u : Uuids) {W L : Type 0} (io : DirIo u W) (log : W → L) (keeping : Keeping io log)
    (api_key : Bytes) (folder_uuid : u.Uuid) where
  abbrev pub Kept : W → W → Type 0
  Kept w v = log v ≡ log w

  -- One request for the listing.
  abbrev pub asks :
      Eff W (ResponsePayload (DownloadDirResponseData u)) (DownloadDirError io.QueryError)
  asks = download_dir_request u io (record { api_key = api_key; uuid = folder_uuid })

  pub asks-Keeps : (w : W) → Keeps (Kept w) (λ a. Kept w) asks
  unfolding download_dir_request
  asks-Keeps w v v' k =
      let ask : DownloadDirRequestPayload u = record { api_key = api_key; uuid = folder_uuid } in
      (
        λ a got.
            keeping ask v v' (ok a)
              (context-ok download_dir_query_failed (io.download_dir ask) a v v' got)
            ∙ k,
        λ e got.
            elim (context-cases download_dir_query_failed (io.download_dir ask) (err e) v v' got) [
              | inl (_, _, same) ↦ absurd (cc same)
              | inr (x, found, _) ↦ keeping ask v v' (err x) found ∙ k
            ],
      )

  -- With retries it still does.
  pub listing-keeps :
      (retry : Retry W)
      → IsRetry retry
      → (settings : RetrySettings) (r : ResponsePayload (DownloadDirResponseData u)) (w w' : W)
      → listing u io retry settings api_key folder_uuid w ≡ returns (ok r, w')
      → log w' ≡ log w
  listing-keeps retry retries settings r w w' h =
      let counted = call-attempts retry retries _ _ settings asks w in
      attempts-Good (Kept w) (λ a. Kept w) asks (asks-Keeps w) settings.max_tries w w' r refl
        (sym counted ∙ h)

  -- So do bounded attempts, also when they all fail.
  pub attempts-keeps :
      (n : ℕ)
      (r : Result (ResponsePayload (DownloadDirResponseData u)) (DownloadDirError io.QueryError))
      (w w' : W)
      → attempts n asks w ≡ returns (r, w')
      → log w' ≡ log w
  attempts-keeps n (ok a) w w' h =
      attempts-Good (Kept w) (λ a. Kept w) asks (asks-Keeps w) n w w' a refl h
  attempts-keeps n (err e) w w' h =
      attempts-Kept (Kept w) (λ a. Kept w) asks (asks-Keeps w) n w w' e refl h
