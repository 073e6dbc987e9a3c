-- ===== src/Tests/Share.antt =====
-- Sharing a folder with servers in memory.
use rust_filen.Base.{
  ℕ, ◌≡◌, refl, List, [], ◌∷◌, ◌++◌, none, Bool, true, false, ok, returns, if◌then◌else◌,
}
use rust_filen.Base.Text.{codes}
use rust_filen.Base.Effects.{traverse}
use rust_filen.Backoff.{standard_retries, call, call_operation, get_exp_backoff_iterator, delays}
use rust_filen.Names.{no_parent, parent, as_parent_or_none}
use rust_filen.Api.{PlainResponsePayload, data_ref_or_err}
use rust_filen.Backoff.Stages.{Left}
use rust_filen.Folders.{download_dir_request}
use rust_filen.Folders.Listing.{items}
use rust_filen.Base.Decimal.{parse_signed}
use rust_filen.Base.Text.{eq_ignore_ascii_case}
use rust_filen.Base.Utf8.{is_utf8}
use rust_filen.Crypto.Aes.{decrypt_aes_openssl, generate_aes_key_and_iv, salt_and_message}
use rust_filen.Crypto.Metadata.{
  decrypt_metadata, decrypt_metadata_any_key, decrypt_metadata_str_any_key, read_metadata_version,
}
use rust_filen.Crypto.Rsa.{encrypt_rsa}
use rust_filen.Files.{decrypt_name_from_metadata, decrypt_file_metadata}
use rust_filen.Files.Shared.{to_metadata_rsa_string, encrypt_name_to_metadata_rsa}
use rust_filen.Share.{
  ShareTarget, ShareRequestPayload, ShareIo, ShareError, from_file_properties, from_folder_name,
  from_folder_data,
}
use rust_filen.Share.Receiver.{IsShareIo, IsShareOf}
use rust_filen.Share.Requests.{
  share_request, share_folder, share_file, share_one_folder, share_one_file,
  share_folder_recursively,
}
use rust_filen.Share.Recursive.{share_folder_recursively-Left}
use rust_filen.Tests.Instances.{
  plain_ciphers, plain_ciphers-IsCiphers, two_uuids, eager, eager-IsRetry,
}
use rust_filen.Tests.Folders.{
  json, json-IsJson, open_rsa, open_rsa-IsKeyPair, contents, response, listing_server,
}

-- The accepted shares, and the statuses of the answers to come; then all are true.
abbrev pub World : Type 0
World = List (ShareRequestPayload two_uuids) × List Bool

abbrev pub status : Bool → PlainResponsePayload
status b = record { status = b; message = none }

abbrev pub answered : ShareRequestPayload two_uuids → World → Bool × World
answered payload (accepted, []) = (true, (accepted ++ payload ∷ [], []))
answered payload (accepted, true ∷ later) = (true, (accepted ++ payload ∷ [], later))
answered payload (accepted, false ∷ later) = (false, (accepted, later))

abbrev pub server : ShareIo two_uuids World
server = record {
  dir = listing_server World;
  draw_seed = λ w. (codes "seed", w);
  share = λ payload w. let (b, w') = answered payload w in returns (ok (status b), w');
}

answered_log :
    (payload : ShareRequestPayload two_uuids) (w : World)
    → (answered payload w).1.0 ≡ (if (answered payload w).0 then w.0 ++ payload ∷ [] else w.0)
answered_log payload (accepted, []) = refl
answered_log payload (accepted, true ∷ later) = refl
answered_log payload (accepted, false ∷ later) = refl

pub server-IsShareIo : IsShareIo server (λ w. w.0)
server-IsShareIo = record {
  shares = record {
    answers = λ payload w w' r h.
        let moved : (answered payload w).1 ≡ w' = cc h in
        let same : status (answered payload w).0 ≡ r = cc h in
        rw (← moved, ← same) (answered_log payload w);
    fails = λ payload w w' e h. absurd (cc h);
  };
  download_dir_keeps = λ payload w w' r h. cc h;
  draw_keeps = λ w. refl;
}

abbrev pub folder_share : ShareRequestPayload two_uuids
folder_share = record {
  api_key = codes "api";
  email = codes "a@b";
  metadata = plain_ciphers.base64_encode (0 ∷ 0 ∷ 0 ∷ 0 ∷ 0 ∷ 0 ∷ 0 ∷ 0 ∷ codes "nDefault");
  parent = no_parent;
  share_type = ShareTarget.folder;
  uuid = true;
}

abbrev pub file_share : ShareRequestPayload two_uuids
file_share = record {
  api_key = codes "api";
  email = codes "a@b";
  metadata = plain_ciphers.base64_encode (0 ∷ 0 ∷ 0 ∷ 0 ∷ 0 ∷ 0 ∷ 0 ∷ 0 ∷ codes "{}");
  parent = parent true;
  share_type = ShareTarget.file;
  uuid = false;
}

-- The second answer is a refusal, after which the file's share is tried again.
shared :
    share_folder_recursively json plain_ciphers open_rsa two_uuids server
      (codes "api")
      (codes "a@b")
      (codes "public")
      (codes "key" ∷ [])
      (eager World)
      standard_retries
      true
      ([], true ∷ false ∷ [])
    ≡ returns (ok tt, (folder_share ∷ file_share ∷ [], []))
unfolding share_folder_recursively share_one_folder share_one_file share_folder share_file
    share_request download_dir_request data_ref_or_err traverse
shared =
    unfold call call_operation eager get_exp_backoff_iterator delays from_folder_data
      from_folder_name from_file_properties encrypt_name_to_metadata_rsa to_metadata_rsa_string
      encrypt_rsa as_parent_or_none decrypt_name_from_metadata decrypt_file_metadata
      decrypt_metadata_str_any_key decrypt_metadata_any_key decrypt_metadata read_metadata_version
      decrypt_aes_openssl generate_aes_key_and_iv salt_and_message is_utf8 eq_ignore_ascii_case
      parse_signed in
    refl

share_folder_recursively-Left_example :
    (xs : List (ShareRequestPayload two_uuids)) × Left {E = ShareError two_uuids ℕ}
      (IsShareOf json plain_ciphers open_rsa two_uuids
        (codes "api")
        (codes "a@b")
        (codes "private")
        (codes "key" ∷ []))
      (items two_uuids contents)
      (ok tt)
      xs
    × (folder_share ∷ file_share ∷ [] ≡ [] ++ xs)
unfolding download_dir_request data_ref_or_err
share_folder_recursively-Left_example =
    share_folder_recursively-Left json plain_ciphers open_rsa two_uuids server (λ w. w.0)
      server-IsShareIo (codes "api") json-IsJson plain_ciphers-IsCiphers open_rsa-IsKeyPair
      (codes "a@b") (codes "key" ∷ []) (eager World) (eager-IsRetry World) standard_retries true
      response contents ([], true ∷ false ∷ []) ([], true ∷ false ∷ [])
      (folder_share ∷ file_share ∷ [], []) (ok tt)
      (unfold call call_operation eager get_exp_backoff_iterator delays in refl) refl shared
