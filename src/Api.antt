-- ===== src/Api.antt =====
-- What all Filen API responses share: src/v1/mod.rs.
pub mod Accepted
pub mod Responses
use Prim.Native.String.{String}
use rust_filen.Base.{Option, none, some, Bool, Result, ok, err, if◌then◌else◌}
use rust_filen.Base.Text.{Bytes}

-- `v1::Error`; the message is printed in debug format, so that it is kept as it is.
pub data ApiError : Type 0 where
  filen_response_indicates_failure : Option Bytes → ApiError
  filen_response_has_no_data : ApiError

-- The struct that `response_payload!` generates.
pub record ResponsePayload (T : Type 0) : Type 0 where
  pub status : Bool
  pub message : Option Bytes
  pub data_ : Option T

pub record PlainResponsePayload : Type 0 where
  pub status : Bool
  pub message : Option Bytes

-- `FilenResponse::data_ref_or_err`, on the three things the trait asks for.
unfoldable pub data_or_err : {T : Type 0} → Bool → Option Bytes → Option T → Result T ApiError
data_or_err status message data_ref =
    if status
    then elim data_ref [ some found ↦ ok found | none ↦ err filen_response_has_no_data ]
    else err (filen_response_indicates_failure message)

unfoldable pub data_ref_or_err : {T : Type 0} → ResponsePayload T → Result T ApiError
unfolding data_or_err
data_ref_or_err r = data_or_err r.status r.message r.data_
