-- ===== src/Api/Responses.antt =====
-- When a response of src/v1/mod.rs gives its data.
use rust_filen.Base.{◌≡◌, ◌↔◌, refl, Option, none, some, Bool, true, false, ok}
use rust_filen.Api.{ResponsePayload, data_or_err, data_ref_or_err}

gives :
    {T : Type 0} (r : ResponsePayload T) (d : T) (status : Bool) (o : Option T)
    → (data_or_err status r.message o ≡ ok d) ↔ ((status ≡ true) × (o ≡ some d))
unfolding data_or_err
gives r d true none = (λ h. absurd (cc h), λ h. absurd (cc h.1))
gives r d true (some x) = (λ h. (refl, cc h), λ h. cc h.1)
gives r d false o = (λ h. absurd (cc h), λ h. absurd (cc h.0))

-- A response gives data exactly when its status is true and it has that data.
pub data_ref_or_err-ok_iff :
    {T : Type 0} (r : ResponsePayload T) (d : T)
    → (data_ref_or_err r ≡ ok d) ↔ ((r.status ≡ true) × (r.data_ ≡ some d))
unfolding data_ref_or_err
data_ref_or_err-ok_iff r d = gives r d r.status r.data_
