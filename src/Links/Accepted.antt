-- ===== src/Links/Accepted.antt =====
-- One item that src/v1/links.rs adds to a link with success is one that the servers accepted, and one
-- that fails is none.
use rust_filen.Base.{
  ℕ, ◌≡◌, refl, sym, ap, ◌∙◌, List, Result, ok, err, Outcome, returns, panics, inl, inr, length,
}
use rust_filen.Base.Text.{Bytes}
use rust_filen.Base.Effects.{◌>>=◌}
use rust_filen.Backoff.Progress.{Sends}
use rust_filen.Names.{IsUuids, Uuids, folder}
use rust_filen.Api.{PlainResponsePayload}
use rust_filen.Api.Accepted.{
  IsLogged, message_or_default, Makes, Adds, send, make_and_send-Adds, forget-Adds,
}
use rust_filen.Crypto.Primitives.{Ciphers, IsCiphers, IsAscii}
use rust_filen.Crypto.Metadata.{Draws}
use rust_filen.Crypto.Metadata.RoundTrip.{IsDrawn}
use rust_filen.Files.{Texts}
use rust_filen.Files.Json.{IsJson}
use rust_filen.Folders.{
  FolderData, FileData, folder_data_uuid, file_data_uuid, folder_data_name, file_data_metadata,
}
use rust_filen.Folders.Listing.{Item, Keeping}
use rust_filen.Links.{
  DirLinkAddRequestPayload, LinkIdWithKey, LinkIo, DirLinkError, cannot_enable_file_link,
  cannot_enable_folder_link, dir_link_add_query_failed, from_file_data, from_folder_data,
}
use rust_filen.Links.Requests.{
  Failure, outcome_of, with_draws, dir_link_add_request, add_file_to_link, add_folder_to_link,
  add_one_folder, add_one_file, linked_parent,
}
use rust_filen.Links.Added.{IsAdded, from_folder_data-IsAdded, from_file_data-IsAdded}

-- The items that the servers said they added to links, which nothing else adds to, and random bytes of
-- the right shape.
pub record IsLinkIo {u : Uuids} {W : Type 0} (io : LinkIo u W)
    (accepted : W → List (DirLinkAddRequestPayload u)) : Type 1 where
  pub adds : IsLogged io.dir_link_add accepted
  pub download_dir_keeps : Keeping io.dir accepted
  pub draw_keeps : (w : W) → accepted (io.draw w).1 ≡ accepted w
  pub draw-IsDrawn : (w : W) → IsDrawn (io.draw w).0
  pub new_v4_keeps : (w : W) → accepted (io.new_v4 w).1 ≡ accepted w
  pub random_keeps : (n : ℕ) (w : W) → accepted (io.random_alphanumeric_string n w).1 ≡ accepted w
  pub length-random : (n : ℕ) (w : W) → length (io.random_alphanumeric_string n w).0 ≡ n
  pub random-IsAscii : (n : ℕ) (w : W) → IsAscii (io.random_alphanumeric_string n w).0

module _ (t : Texts) (c : Ciphers) (u : Uuids) {W : Type 0} (io : LinkIo u W)
    (accepted : W → List (DirLinkAddRequestPayload u)) (lawful : IsLinkIo io accepted)
    (ids : IsUuids u) (json : IsJson t) (ciphers : IsCiphers c) (api_key : Bytes)
    (master_keys : List Bytes) (folder_uuid : u.Uuid) (link : LinkIdWithKey u) where
  abbrev Payload : Type 0
  Payload = DirLinkAddRequestPayload u

  abbrev Failed : Type 0
  Failed = Failure t c u io api_key

  abbrev Added : Item u → Payload → Type 0
  Added = IsAdded t c u api_key master_keys folder_uuid link

  outcome_of-returns :
      (o : Outcome (Result Payload (DirLinkError io.dir.QueryError))) (r : Result Payload Failed)
      (v w : W)
      → outcome_of t c u io api_key o v ≡ returns (r, w)
      → (v ≡ w) × ((x : Payload) → r ≡ ok x → o ≡ returns (ok x))
  outcome_of-returns panics r v w h = absurd (cc h)
  outcome_of-returns (returns (ok y)) r v w h =
      (cc h, λ x same. let e : y ≡ x = cc (h, same) in ap (λ z. returns (ok z)) e)
  outcome_of-returns (returns (err e)) r v w h = (cc h, λ x same. absurd (cc (h, same)))

  drawn-Makes :
      (item : Item u) (make : Draws → Outcome (Result Payload (DirLinkError io.dir.QueryError)))
      → ((draws : Draws) (x : Payload) → IsDrawn draws → make draws ≡ returns (ok x) → Added item x)
      → Makes accepted (Added item) (with_draws t c u io api_key make)
  unfolding with_draws
  drawn-Makes item make makes w w' =
      let kept = lawful.draw_keeps w in
      let draws = (io.draw w).0 in
      (
        λ x h.
            let (stays, made) = outcome_of-returns (make draws) (ok x) (io.draw w).1 w' h in
            (makes draws x (lawful.draw-IsDrawn w) (made x refl), ap accepted (sym stays) ∙ kept),
        λ e h.
            let (stays, _) = outcome_of-returns (make draws) (err e) (io.draw w).1 w' h in
            ap accepted (sym stays) ∙ kept,
      )

  -- A payload that is made with drawn random bytes and then sent.
  pub drawn-Adds :
      (item : Item u) (refused : PlainResponsePayload → Failed)
      (make : Draws → Outcome (Result Payload (DirLinkError io.dir.QueryError)))
      → ((draws : Draws) (x : Payload) → IsDrawn draws → make draws ≡ returns (ok x) → Added item x)
      → Adds accepted (Added item) (
          with_draws t c u io api_key make
          >>= send accepted io.dir_link_add lawful.adds
              (λ e. dir_link_add_query_failed (DirLinkError.dir_link_add_query_failed e))
              message_or_default
              refused)
  drawn-Adds item refused make makes =
      make_and_send-Adds accepted io.dir_link_add lawful.adds
        (λ e. dir_link_add_query_failed (DirLinkError.dir_link_add_query_failed e))
        message_or_default refused (Added item) (with_draws t c u io api_key make)
        (drawn-Makes item make makes)

  -- The payloads of a folder and of a file.
  abbrev pub of_folder :
      FolderData u → Draws → Outcome (Result Payload (DirLinkError io.dir.QueryError))
  of_folder d draws =
      from_folder_data t c u api_key (linked_parent u folder_uuid d) link.link_uuid
        link.link_key_metadata master_keys draws d

  abbrev pub of_file :
      FileData u → Draws → Outcome (Result Payload (DirLinkError io.dir.QueryError))
  of_file d draws =
      from_file_data t c u api_key (folder d.parent) link.link_uuid link.link_key_metadata
        master_keys draws d

  pub folder-Adds :
      (d : FolderData u)
      → Adds accepted (Added (inl d)) (
          with_draws t c u io api_key (of_folder d)
          >>= send accepted io.dir_link_add lawful.adds
              (λ e. dir_link_add_query_failed (DirLinkError.dir_link_add_query_failed e))
              message_or_default
              (λ r. cannot_enable_folder_link (message_or_default r)))
  folder-Adds d =
      drawn-Adds (inl d) (λ r. cannot_enable_folder_link (message_or_default r)) (of_folder d)
        (λ draws x drawn made.
          from_folder_data-IsAdded t c u api_key master_keys folder_uuid link ids json ciphers draws
            drawn d x made)

  pub file-Adds :
      (d : FileData u)
      → Adds accepted (Added (inr d)) (
          with_draws t c u io api_key (of_file d)
          >>= send accepted io.dir_link_add lawful.adds
              (λ e. dir_link_add_query_failed (DirLinkError.dir_link_add_query_failed e))
              message_or_default
              (λ r. cannot_enable_file_link (message_or_default r)))
  file-Adds d =
      drawn-Adds (inr d) (λ r. cannot_enable_file_link (message_or_default r)) (of_file d)
        (λ draws x drawn made.
          from_file_data-IsAdded t c u api_key master_keys folder_uuid link ids json ciphers draws
            drawn d x made)

  pub add_one_folder-Sends :
      Sends accepted Added inl (add_one_folder t c u io api_key master_keys folder_uuid link)
  unfolding add_one_folder add_folder_to_link dir_link_add_request
  add_one_folder-Sends d = forget-Adds accepted (Added (inl d)) _ (folder-Adds d)

  pub add_one_file-Sends :
      Sends accepted Added inr (add_one_file t c u io api_key master_keys folder_uuid link)
  unfolding add_one_file add_file_to_link dir_link_add_request
  add_one_file-Sends d = forget-Adds accepted (Added (inr d)) _ (file-Adds d)
