-- ===== src/Keys.antt =====
-- The keys of a user: src/v1/user_keys.rs, and the data of src/v1/auth.rs that hold them. A trait is a record
-- of its methods without a body; its other methods are functions.
pub mod KeyPair
pub mod MasterKeys
use Prim.Native.String.{String}
use rust_filen.Base.{Option, some, none, List, Result, ok, err, map_err}
use rust_filen.Base.Text.{Bytes}
use rust_filen.Crypto.Primitives.{Ciphers, CryptoError}
use rust_filen.Crypto.MasterKeys.{decrypt_master_keys_metadata, decrypt_private_key_metadata}

-- `user_keys::Error`; `QueryError` is the error of `queries`.
pub data UserKeysError (QueryError : Type 0) : Type 0 where
  bad_argument : String → UserKeysError QueryError
  decode_public_key_failed : UserKeysError QueryError
  decrypt_master_keys_failed : CryptoError → UserKeysError QueryError
  decrypt_private_key_failed : CryptoError → UserKeysError QueryError
  encrypt_master_keys_failed : CryptoError → UserKeysError QueryError
  encrypt_private_key_failed : CryptoError → UserKeysError QueryError
  user_key_pair_info_query_failed : QueryError → UserKeysError QueryError
  user_key_pair_update_query_failed : QueryError → UserKeysError QueryError
  user_master_keys_query_failed : QueryError → UserKeysError QueryError
  user_public_key_get_query_failed : QueryError → UserKeysError QueryError

pub record UserKeyPairInfoResponseData : Type 0 where
  pub public_key : Option Bytes
  pub private_key_metadata : Option Bytes

pub record MasterKeysFetchResponseData : Type 0 where
  pub keys_metadata : Option Bytes

pub record UserPublicKeyGetResponseData : Type 0 where
  pub public_key : Option Bytes

pub record LoginResponseData : Type 0 where
  pub api_key : Bytes
  pub master_keys_metadata : Option Bytes
  pub private_key_metadata : Option Bytes

pub record HasMasterKeys (T : Type 0) : Type 0 where
  pub master_keys_metadata_ref : T → Option Bytes

pub record HasPrivateKey (T : Type 0) : Type 0 where
  pub private_key_metadata_ref : T → Option Bytes

pub record HasPublicKey (T : Type 0) : Type 0 where
  pub public_key_ref : T → Option Bytes

instance abbrev pub info_private_key : HasPrivateKey UserKeyPairInfoResponseData
info_private_key = record { private_key_metadata_ref = λ d. d.private_key_metadata }

instance abbrev pub info_public_key : HasPublicKey UserKeyPairInfoResponseData
info_public_key = record { public_key_ref = λ d. d.public_key }

instance abbrev pub fetch_master_keys : HasMasterKeys MasterKeysFetchResponseData
fetch_master_keys = record { master_keys_metadata_ref = λ d. d.keys_metadata }

instance abbrev pub get_public_key : HasPublicKey UserPublicKeyGetResponseData
get_public_key = record { public_key_ref = λ d. d.public_key }

instance abbrev pub login_master_keys : HasMasterKeys LoginResponseData
login_master_keys = record { master_keys_metadata_ref = λ d. d.master_keys_metadata }

instance abbrev pub login_private_key : HasPrivateKey LoginResponseData
login_private_key = record { private_key_metadata_ref = λ d. d.private_key_metadata }

module _ (c : Ciphers) {Q : Type 0} where
  abbrev keys_of : Option Bytes → Bytes → Result (List Bytes) (UserKeysError Q)
  keys_of (some metadata) last_master_key =
      map_err decrypt_master_keys_failed (decrypt_master_keys_metadata c metadata last_master_key)
  keys_of none last_master_key =
      err (bad_argument "master keys metadata is absent, cannot decrypt None")

  -- `HasMasterKeys::decrypt_master_keys_metadata`
  unfoldable pub decrypt_keys :
      {T : Type 0} ⦃k : HasMasterKeys T⦄ → T → Bytes → Result (List Bytes) (UserKeysError Q)
  decrypt_keys ⦃k⦄ d = keys_of (k.master_keys_metadata_ref d)

  abbrev private_key_of : Option Bytes → List Bytes → Result Bytes (UserKeysError Q)
  private_key_of (some metadata) master_keys =
      map_err decrypt_private_key_failed (decrypt_private_key_metadata c metadata master_keys)
  private_key_of none master_keys =
      err (bad_argument "private key metadata is absent, cannot decrypt None")

  -- `HasPrivateKey::decrypt_private_key`
  unfoldable pub decrypt_private_key :
      {T : Type 0} ⦃k : HasPrivateKey T⦄ → T → List Bytes → Result Bytes (UserKeysError Q)
  decrypt_private_key ⦃k⦄ d = private_key_of (k.private_key_metadata_ref d)

  abbrev decoded : Option Bytes → Result Bytes (UserKeysError Q)
  decoded (some key) = ok key
  decoded none = err decode_public_key_failed

  abbrev public_key_of : Option Bytes → Result Bytes (UserKeysError Q)
  public_key_of (some key) = decoded (c.base64_decode key)
  public_key_of none = err (bad_argument "public key is absent, cannot decode None")

  -- `HasPublicKey::decode_public_key`
  unfoldable pub decode_public_key :
      {T : Type 0} ⦃k : HasPublicKey T⦄ → T → Result Bytes (UserKeysError Q)
  decode_public_key ⦃k⦄ d = public_key_of (k.public_key_ref d)
