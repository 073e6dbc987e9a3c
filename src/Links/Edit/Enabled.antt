-- ===== src/Links/Edit/Enabled.antt =====
-- What enabling and disabling the link to a file in src/v1/links.rs leaves with the servers.
use mathlib.Core.Path.{subst}
use rust_filen.Base.{
  ◌≡◌, refl, sym, ap, ◌∙◌, List, [], ◌∷◌, ◌++◌, Option, some, none, Result, ok, err, returns,
}
use rust_filen.Base.Text.{Bytes}
use rust_filen.Names.{Uuids, Expire, never}
use rust_filen.Api.{PlainResponsePayload}
use rust_filen.Api.Accepted.{IsLogged, message_or_default, send, send-ok, send-err, send-done}
use rust_filen.Crypto.Primitives.{Ciphers}
use rust_filen.Crypto.Aes.{derive_key_from_password_512}
use rust_filen.Links.{
  DownloadBtnState, LinkState, LinkEditRequestPayload, LinkIo, LinkError, FileLinkError,
  cannot_disable_file_link, cannot_enable_file_link, link_edit_query_failed,
}
use rust_filen.Links.Edit.{
  bytes_to_hex_string, encrypt_to_link_password_and_salt, password_state, password_or_empty, new,
  enabled, disabled, link_edit_request, disable_file_link, enable_file_link,
}

-- The edits of file links that the servers said they accepted, which drawing random values does not add to.
pub record IsEditIo {u : Uuids} {W : Type 0} (io : LinkIo u W)
    (accepted : W → List (LinkEditRequestPayload u)) : Type 1 where
  pub edits : IsLogged io.link_edit accepted
  pub new_v4_keeps : (w : W) → accepted (io.new_v4 w).1 ≡ accepted w
  pub random_keeps : (w : W) → accepted (io.random_alphanumeric_string 32 w).1 ≡ accepted w

module _ (c : Ciphers) (u : Uuids) where
  -- An edit that sets a file's link to a state, with the hash of the password or of the word that
  -- stands for none, salted with the salt that it names.
  abbrev pub IsEdit :
      Bytes
      → u.Uuid
      → DownloadBtnState
      → Expire
      → LinkState
      → Option Bytes
      → LinkEditRequestPayload u
      → Type 0
  IsEdit api_key file_uuid download_btn expiration state password payload =
      (payload.api_key ≡ api_key)
      × (payload.file_uuid ≡ file_uuid)
      × (payload.download_btn ≡ download_btn)
      × (payload.expiration ≡ expiration)
      × (payload.link_type ≡ state)
      × (payload.password ≡ password_state password)
      × (payload.password_hashed
          ≡ bytes_to_hex_string (c.pbkdf2 64 (password_or_empty password) payload.salt 200000))

module _ (c : Ciphers) (u : Uuids) {W : Type 0} (io : LinkIo u W)
    (accepted : W → List (LinkEditRequestPayload u)) (lawful : IsEditIo io accepted)
    (api_key : Bytes) where
  new-IsEdit :
      (file_uuid : u.Uuid) (btn : DownloadBtnState) (expiration : Expire) (state : LinkState)
      (link_uuid : Option u.Uuid) (password : Option Bytes) (w : W)
      → let made = new c u io api_key file_uuid btn expiration state link_uuid password w in
        IsEdit c u api_key file_uuid btn expiration state password made.0
        × (accepted made.1 ≡ accepted w)
  unfolding new encrypt_to_link_password_and_salt derive_key_from_password_512
  new-IsEdit file_uuid btn expiration state none password w = (
    (refl, refl, refl, refl, refl, refl, refl),
    lawful.new_v4_keeps (io.random_alphanumeric_string 32 w).1 ∙ lawful.random_keeps w,
  )
  new-IsEdit file_uuid btn expiration state (some uuid) password w =
      ((refl, refl, refl, refl, refl, refl, refl), lawful.random_keeps w)

  -- The edits that a result stands for.
  abbrev pub Edited :
      {A : Type 0}
      → (A → LinkEditRequestPayload u → Type 0)
      → Result A (LinkError io.dir.QueryError)
      → W
      → W
      → Type 0
  Edited Good (ok a) w w' =
      (x : LinkEditRequestPayload u) × Good a x × (accepted w' ≡ accepted w ++ x ∷ [])
  Edited Good (err e) w w' = accepted w' ≡ accepted w

  -- An edit that is sent is accepted, or the call fails.
  sent :
      {A : Type 0} (Good : A → LinkEditRequestPayload u → Type 0) (x : LinkEditRequestPayload u)
      (done : PlainResponsePayload → A)
      (refused : PlainResponsePayload → LinkError io.dir.QueryError) (w v w' : W)
      (r : Result A (LinkError io.dir.QueryError))
      → accepted v ≡ accepted w
      → ((answer : PlainResponsePayload) → Good (done answer) x)
      → send accepted io.link_edit lawful.edits
          (λ e. link_edit_query_failed (FileLinkError.link_edit_query_failed e))
          done
          refused
          x
          v
        ≡ returns (r, w')
      → Edited Good r w w'
  sent Good x done refused w v w' (ok a) kept good h =
      let wrap : io.dir.QueryError → LinkError io.dir.QueryError =
        λ e. link_edit_query_failed (FileLinkError.link_edit_query_failed e) in
      let (answer, same) =
        send-done accepted io.link_edit lawful.edits wrap done refused x a v w' h in
      let grew = send-ok accepted io.link_edit lawful.edits wrap done refused x a v w' h in
      (x, subst (λ b. Good b x) (sym same) (good answer), grew ∙ ap (λ xs. xs ++ x ∷ []) kept)
  sent Good x done refused w v w' (err e) kept good h =
      send-err accepted io.link_edit lawful.edits
        (λ e. link_edit_query_failed (FileLinkError.link_edit_query_failed e)) done refused x e v w'
        h
      ∙ kept

-- What disabling a file's link results in: the servers have accepted one edit that disables the given link
-- of the file if it succeeds, and none if it fails. Stated for a log of the accepted edits.
pub disable_file_link-Edited :
    (c : Ciphers) (u : Uuids) {W : Type 0} (io : LinkIo u W)
    (accepted : W → List (LinkEditRequestPayload u)) (lawful : IsEditIo io accepted)
    (api_key : Bytes) (file_uuid link_uuid : u.Uuid) (w w' : W)
    (r : Result Bytes (LinkError io.dir.QueryError))
    → disable_file_link c u io api_key file_uuid link_uuid w ≡ returns (r, w')
    → Edited c u io accepted lawful api_key
        (λ message x.
          IsEdit c u api_key file_uuid DownloadBtnState.enable never LinkState.disable none x
          × (x.uuid ≡ link_uuid))
        r
        w
        w'
unfolding disable_file_link disabled link_edit_request new
disable_file_link-Edited c u io accepted lawful api_key file_uuid link_uuid w w' r h =
    let (made, v) = disabled c u io api_key file_uuid link_uuid w in
    let (edit, kept) =
      new-IsEdit c u io accepted lawful api_key file_uuid DownloadBtnState.enable never
        LinkState.disable (some link_uuid) none w in
    sent c u io accepted lawful api_key _ made message_or_default
      (λ a. cannot_disable_file_link (message_or_default a)) w v w' r kept (λ a. (edit, refl)) h

-- What enabling a file's link results in: the servers have accepted one edit that enables a link of the
-- file, with the given button, expiration and password, and with the link that is the result, if it
-- succeeds, and none if it fails. Stated for a log of the accepted edits.
pub enable_file_link-Edited :
    (c : Ciphers) (u : Uuids) {W : Type 0} (io : LinkIo u W)
    (accepted : W → List (LinkEditRequestPayload u)) (lawful : IsEditIo io accepted)
    (api_key : Bytes) (file_uuid : u.Uuid) (btn : DownloadBtnState) (expiration : Expire)
    (password : Option Bytes) (w w' : W) (r : Result u.Uuid (LinkError io.dir.QueryError))
    → enable_file_link c u io api_key file_uuid btn expiration password w ≡ returns (r, w')
    → Edited c u io accepted lawful api_key
        (λ uuid x.
          IsEdit c u api_key file_uuid btn expiration LinkState.enable password x × (x.uuid ≡ uuid))
        r
        w
        w'
unfolding enable_file_link enabled link_edit_request
enable_file_link-Edited c u io accepted lawful api_key file_uuid btn expiration password w w' r h =
    let (made, v) = enabled c u io api_key file_uuid btn expiration none password w in
    let (edit, kept) =
      new-IsEdit c u io accepted lawful api_key file_uuid btn expiration LinkState.enable none
        password w in
    sent c u io accepted lawful api_key _ made (λ a. made.uuid)
      (λ a. cannot_enable_file_link (message_or_default a)) w v w' r kept (λ a. (edit, refl)) h
