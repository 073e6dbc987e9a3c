-- ===== src/Tests/Links.antt =====
-- Links to a folder and to a file with servers in memory.
use rust_filen.Base.{
  ℕ, zero, suc, ◌≡◌, refl, List, [], ◌∷◌, ◌++◌, none, some, Bool, true, false, Result, ok, returns,
  if◌then◌else◌, replicate, length, ap, arith,
}
use rust_filen.Base.Text.{Bytes, codes, eq_ignore_ascii_case}
use rust_filen.Base.Utf8.{is_utf8}
use rust_filen.Base.Decimal.{parse_signed}
use rust_filen.Base.Effects.{traverse}
use rust_filen.Backoff.{standard_retries, call, call_operation, get_exp_backoff_iterator, delays}
use rust_filen.Backoff.Stages.{Left}
use rust_filen.Names.{base, folder, never, hours}
use rust_filen.Api.{PlainResponsePayload, data_ref_or_err}
use rust_filen.Crypto.Primitives.{IsAscii, openssl_salt_prefix}
use rust_filen.Crypto.Aes.{
  decrypt_aes_openssl, encrypt_aes_openssl, generate_aes_key_and_iv, salt_and_message,
}
use rust_filen.Crypto.Metadata.{
  Draws, encrypt_metadata, encrypt_metadata_str, decrypt_metadata, decrypt_metadata_any_key,
  decrypt_metadata_str_any_key, read_metadata_version,
}
use rust_filen.Crypto.Metadata.RoundTrip.{IsDrawn}
use rust_filen.Files.{
  hash_fn, encrypt_file_metadata, encrypt_name_to_metadata, decrypt_name_from_metadata,
  decrypt_file_metadata,
}
use rust_filen.Folders.{download_dir_request}
use rust_filen.Folders.Listing.{items}
use rust_filen.Links.{
  DownloadBtnState, LinkState, ItemKind, empty, DirLinkAddRequestPayload, LinkEditRequestPayload,
  LinkIdWithKey, LinkIo, LinkError, from_file_properties, from_folder_name, from_file_data,
  from_folder_data,
}
use rust_filen.Links.Requests.{
  generate, dir_link_add_request, with_draws, add_file_to_link, add_folder_to_link, add_one_folder,
  add_one_file, link_folder_recursively,
}
use rust_filen.Links.Added.{IsAdded}
use rust_filen.Links.Accepted.{IsLinkIo}
use rust_filen.Links.Recursive.{IsKeyed, link_folder_recursively-Left}
use rust_filen.Links.Edit.{new, enabled, link_edit_request, enable_file_link}
use rust_filen.Links.Edit.Enabled.{IsEditIo, IsEdit, Edited, enable_file_link-Edited}
use rust_filen.Tests.Instances.{
  plain_ciphers, plain_ciphers-IsCiphers, two_uuids, two_uuids-IsUuids, eager, eager-IsRetry,
}
use rust_filen.Tests.Folders.{json, json-IsJson, contents, response, listing_server}

-- The accepted additions and edits, and the statuses of the answers to come; then all are true.
pub record World : Type 0 where
  pub added : List (DirLinkAddRequestPayload two_uuids)
  pub edited : List (LinkEditRequestPayload two_uuids)
  pub later : List Bool

abbrev next_status : List Bool → Bool
next_status [] = true
next_status (b ∷ _) = b

abbrev rest_of : List Bool → List Bool
rest_of [] = []
rest_of (_ ∷ bs) = bs

abbrev status : Bool → PlainResponsePayload
status b = record { status = b; message = none }

abbrev logged : {A : Type 0} → Bool → A → List A → List A
logged b x xs = if b then xs ++ x ∷ [] else xs

abbrev draws : Draws
draws = record { salt = codes "saltsalt"; iv = codes "abcdefghijkl" }

abbrev pub server : LinkIo two_uuids World
server = record {
  dir = listing_server World;
  draw = λ w. (draws, w);
  new_v4 = λ w. (false, w);
  random_alphanumeric_string = λ n w. (replicate n b'k', w);
  dir_link_add = λ payload w. returns (
    ok (status (next_status w.later)),
    record w { added = logged (next_status w.later) payload w.added; later = rest_of w.later },
  );
  link_edit = λ payload w. returns (
    ok (status (next_status w.later)),
    record w { edited = logged (next_status w.later) payload w.edited; later = rest_of w.later },
  );
}

ks-IsAscii : (n : ℕ) → IsAscii (replicate n b'k')
ks-IsAscii zero = tt
ks-IsAscii (suc n) = (omega arith, ks-IsAscii n)

length-ks : (n : ℕ) → length {A = ℕ} (replicate n b'k') ≡ n
length-ks zero = omega arith
length-ks (suc n) = ap suc (length-ks n)

draws-IsDrawn : IsDrawn draws
draws-IsDrawn = record {
  length_salt = omega arith;
  salt-IsBytes = search (arith, tt);
  length_iv = omega arith;
  iv-IsAscii = search (arith, tt);
}

pub server-IsLinkIo : IsLinkIo server (λ w. w.added)
server-IsLinkIo = record {
  adds = record {
    answers = λ payload w w' r h.
        let same : status (next_status w.later) ≡ r = cc h in
        let moved : logged (next_status w.later) payload w.added ≡ w'.added = cc h in
        rw (← same, ← moved) refl;
    fails = λ payload w w' e h. absurd (cc h);
  };
  download_dir_keeps = λ payload w w' r h. cc h;
  draw_keeps = λ w. refl;
  draw-IsDrawn = λ w. draws-IsDrawn;
  new_v4_keeps = λ w. refl;
  random_keeps = λ n w. refl;
  length-random = λ n w. length-ks n;
  random-IsAscii = λ n w. ks-IsAscii n;
}

server-IsEditIo : IsEditIo server (λ w. w.edited)
server-IsEditIo = record {
  edits = record {
    answers = λ payload w w' r h.
        let same : status (next_status w.later) ≡ r = cc h in
        let moved : logged (next_status w.later) payload w.edited ≡ w'.edited = cc h in
        rw (← same, ← moved) refl;
    fails = λ payload w w' e h. absurd (cc h);
  };
  new_v4_keeps = λ w. refl;
  random_keeps = λ w. refl;
}

abbrev pub before : List Bool → World
before bs = record { added = []; edited = []; later = bs }

abbrev enabling : LinkEditRequestPayload two_uuids
enabling =
    (enabled plain_ciphers two_uuids server (codes "api") true DownloadBtnState.enable (hours 6)
      none (some (codes "secret")) (before [])).0

after_enabling :
    enable_file_link plain_ciphers two_uuids server
      (codes "api")
      true
      DownloadBtnState.enable
      (hours 6)
      (some (codes "secret"))
      (before [])
    ≡ returns (ok false, record (before []) { edited = enabling ∷ [] })
unfolding enable_file_link enabled new link_edit_request
after_enabling = refl

enable_file_link-Edited_example :
    Edited plain_ciphers two_uuids server
      (λ w. w.edited)
      server-IsEditIo
      (codes "api")
      (λ uuid x.
        IsEdit plain_ciphers two_uuids
          (codes "api")
          true
          DownloadBtnState.enable
          (hours 6)
          LinkState.enable
          (some (codes "secret"))
          x
        × (x.uuid ≡ uuid))
      (ok false)
      (before [])
      (record (before []) { edited = enabling ∷ [] })
enable_file_link-Edited_example =
    enable_file_link-Edited plain_ciphers two_uuids server (λ w. w.edited) server-IsEditIo
      (codes "api") true DownloadBtnState.enable (hours 6) (some (codes "secret")) (before [])
      (record (before []) { edited = enabling ∷ [] }) (ok false) after_enabling

-- What the ciphers of the tests encrypt a text to.
abbrev sealed : Bytes → Bytes
sealed s =
    plain_ciphers.base64_encode (openssl_salt_prefix ++ (codes "saltsalt" ++ (replicate 16 0 ++ s)))

abbrev pub link : LinkIdWithKey two_uuids
link = record { link_key_metadata = sealed (replicate 32 b'k'); link_uuid = false }

abbrev pub folder_added : DirLinkAddRequestPayload two_uuids
folder_added = record {
  api_key = codes "api";
  download_btn = DownloadBtnState.enable;
  expiration = never;
  key_metadata = link.link_key_metadata;
  link_uuid = false;
  metadata = sealed (codes "nDefault");
  parent = base;
  password = empty;
  password_hashed = codes "empty";
  link_type = ItemKind.folder;
  uuid = true;
}

abbrev pub file_added : DirLinkAddRequestPayload two_uuids
file_added = record {
  api_key = codes "api";
  download_btn = DownloadBtnState.enable;
  expiration = never;
  key_metadata = link.link_key_metadata;
  link_uuid = false;
  metadata = sealed (codes "{}");
  parent = folder true;
  password = empty;
  password_hashed = codes "empty";
  link_type = ItemKind.file;
  uuid = false;
}

abbrev after_linking : World
after_linking = record (before []) { added = folder_added ∷ file_added ∷ [] }

-- The first answer is a refusal, after which the folder is added again.
linked :
    link_folder_recursively json plain_ciphers two_uuids server
      (codes "api")
      (codes "key" ∷ [])
      true
      (eager World)
      standard_retries
      (before (false ∷ []))
    ≡ returns (ok link, after_linking)
unfolding link_folder_recursively generate add_one_folder add_one_file add_folder_to_link
    add_file_to_link dir_link_add_request with_draws download_dir_request data_ref_or_err traverse
linked =
    unfold call call_operation eager get_exp_backoff_iterator delays from_folder_data
      from_folder_name from_file_data from_file_properties hash_fn encrypt_name_to_metadata
      encrypt_file_metadata encrypt_metadata_str encrypt_metadata encrypt_aes_openssl
      decrypt_name_from_metadata decrypt_file_metadata decrypt_metadata_str_any_key
      decrypt_metadata_any_key decrypt_metadata read_metadata_version decrypt_aes_openssl
      generate_aes_key_and_iv salt_and_message is_utf8 eq_ignore_ascii_case parse_signed in
    refl

link_folder_recursively-Left_example :
    (made : LinkIdWithKey two_uuids) × (xs : List (DirLinkAddRequestPayload two_uuids)) × IsKeyed
      plain_ciphers
      (codes "key")
      made
    × ((found : LinkIdWithKey two_uuids)
        → (let result : Result (LinkIdWithKey two_uuids) (LinkError ℕ) = ok link in result)
          ≡ ok found
        → found ≡ made)
    × Left {E = LinkError ℕ}
        (IsAdded json plain_ciphers two_uuids (codes "api") (codes "key" ∷ []) true made)
        (items two_uuids contents)
        (ok link)
        xs
    × (folder_added ∷ file_added ∷ [] ≡ [] ++ xs)
unfolding download_dir_request data_ref_or_err
link_folder_recursively-Left_example =
    link_folder_recursively-Left json plain_ciphers two_uuids server (λ w. w.added) server-IsLinkIo
      two_uuids-IsUuids json-IsJson plain_ciphers-IsCiphers (codes "api") (codes "key" ∷ [])
      (eager World) (eager-IsRetry World) standard_retries true (codes "key") response contents
      (before (false ∷ [])) (before (false ∷ [])) after_linking (ok link) refl
      (unfold call call_operation eager get_exp_backoff_iterator delays in refl) refl linked
