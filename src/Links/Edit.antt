-- ===== src/Links/Edit.antt =====
-- Links to single files: `LinkEditRequestPayload` of src/v1/file_links.rs, `disable_file_link` and
-- `enable_file_link` of src/v1/links.rs, and the password of a link in src/crypto.rs.
pub mod Enabled
use rust_filen.Base.{
  ℕ, ◌/◌, ◌%◌, ◌+◌, List, [], ◌∷◌, Option, some, none, Result, ok, err, ltb, if◌then◌else◌,
}
use rust_filen.Base.Text.{Bytes}
use rust_filen.Base.Effects.{Eff, ◌>>=◌, lift, context}
use rust_filen.Names.{Uuids, Expire, never}
use rust_filen.Api.{PlainResponsePayload}
use rust_filen.Api.Accepted.{by_status, message_or_default}
use rust_filen.Crypto.Primitives.{Ciphers}
use rust_filen.Crypto.Aes.{derive_key_from_password_512}
use rust_filen.Links.{
  DownloadBtnState, PasswordState, empty, not_empty, LinkState, LinkEditRequestPayload, LinkIo,
  LinkError, FileLinkError, cannot_disable_file_link, cannot_enable_file_link,
  link_edit_query_failed, link_empty_password_value,
}

-- A digit of `format!("{:02x}", byte)`.
abbrev pub hex_digit : ℕ → ℕ
hex_digit n = if ltb n 10 then b'0' + n else b'W' + n

-- `utils::bytes_to_hex_string`
abbrev pub bytes_to_hex_string : Bytes → Bytes
bytes_to_hex_string [] = []
bytes_to_hex_string (b ∷ bytes) =
    hex_digit (b / 16 % 16) ∷ hex_digit (b % 16) ∷ bytes_to_hex_string bytes

-- `crypto::encrypt_to_link_password_and_salt`, for a drawn salt.
unfoldable pub encrypt_to_link_password_and_salt : Ciphers → Bytes → Bytes → Bytes × Bytes
encrypt_to_link_password_and_salt c plain_text_password salt =
    (bytes_to_hex_string (derive_key_from_password_512 c plain_text_password salt 200000), salt)

-- `link_plain_password.map_or(…)`
abbrev pub password_state : Option Bytes → PasswordState
password_state none = empty
password_state (some _) = not_empty

abbrev pub password_or_empty : Option Bytes → Bytes
password_or_empty none = link_empty_password_value
password_or_empty (some password) = password

module _ (c : Ciphers) (u : Uuids) {W : Type 0} (io : LinkIo u W) (api_key : Bytes) where
  -- `link_uuid.unwrap_or_else(Uuid::new_v4)`
  abbrev pub uuid_or_new : Option u.Uuid → W → u.Uuid × W
  uuid_or_new none w = io.new_v4 w
  uuid_or_new (some uuid) w = (uuid, w)

  -- `LinkEditRequestPayload::new`
  unfoldable pub new :
      u.Uuid
      → DownloadBtnState
      → Expire
      → LinkState
      → Option u.Uuid
      → Option Bytes
      → W
      → LinkEditRequestPayload u × W
  new file_uuid download_btn expiration state link_uuid link_plain_password w =
      let (drawn, w_1) = io.random_alphanumeric_string 32 w in
      let (password_hashed, salt) =
        encrypt_to_link_password_and_salt c (password_or_empty link_plain_password) drawn in
      let (uuid, w_2) = uuid_or_new link_uuid w_1 in
      (
        record {
          api_key = api_key;
          download_btn = download_btn;
          expiration = expiration;
          file_uuid = file_uuid;
          password = password_state link_plain_password;
          password_hashed = password_hashed;
          salt = salt;
          link_type = state;
          uuid = uuid;
        },
        w_2,
      )

  -- `LinkEditRequestPayload::enabled` and `disabled`
  unfoldable pub enabled :
      u.Uuid
      → DownloadBtnState
      → Expire
      → Option u.Uuid
      → Option Bytes
      → W
      → LinkEditRequestPayload u × W
  enabled file_uuid download_btn expiration link_uuid link_plain_password =
      new file_uuid download_btn expiration LinkState.enable link_uuid link_plain_password

  unfoldable pub disabled : u.Uuid → u.Uuid → W → LinkEditRequestPayload u × W
  disabled file_uuid link_uuid =
      new file_uuid DownloadBtnState.enable never LinkState.disable (some link_uuid) none

  -- `link_edit_request`, with the context that its callers give.
  unfoldable pub link_edit_request :
      LinkEditRequestPayload u → Eff W PlainResponsePayload (LinkError io.dir.QueryError)
  link_edit_request payload =
      context (λ e. link_edit_query_failed (FileLinkError.link_edit_query_failed e))
        (io.link_edit payload)

  unfoldable pub disable_file_link : u.Uuid → u.Uuid → Eff W Bytes (LinkError io.dir.QueryError)
  disable_file_link file_uuid link_uuid w =
      let (link_disable_payload, w') = disabled file_uuid link_uuid w in
      (link_edit_request link_disable_payload >>= λ response. lift (
          by_status message_or_default (λ r. cannot_disable_file_link (message_or_default r))
            response))
        w'

  unfoldable pub enable_file_link :
      u.Uuid → DownloadBtnState → Expire → Option Bytes → Eff W u.Uuid (LinkError io.dir.QueryError)
  enable_file_link file_uuid download_button_state expiration link_plain_password w =
      let (link_enable_payload, w') =
        enabled file_uuid download_button_state expiration none link_plain_password w in
      (link_edit_request link_enable_payload >>= λ response. lift (
          by_status (λ r. link_enable_payload.uuid)
            (λ r. cannot_enable_file_link (message_or_default r)) response))
        w'
