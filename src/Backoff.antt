-- ===== src/Backoff.antt =====
-- Retries with a growing delay: src/limited_exponential.rs and src/retry_settings.rs. A `Duration`
-- is its number of nanoseconds. The crate `retry` is a parameter.
pub mod Float
pub mod Delays
pub mod Call
pub mod Progress
pub mod Stages
pub mod Tasks
use rust_filen.Base.{
  ℕ, zero, suc, ◌+◌, ◌*◌, ◌/◌, ◌%◌, ◌^◌, List, [], ◌∷◌, ltb, if◌then◌else◌, ok, err, returns,
  panics, Outcome, Result, Bool, ◌≡◌, refl, map,
}
use rust_filen.Base.Effects.{Eff}
use rust_filen.Backoff.Float.{as_f64, mul_f64, as_u64}

-- `Duration::from_millis`, `Duration::as_millis`
abbrev pub from_millis : ℕ → ℕ
from_millis ms = ms * 10 ^ 6

abbrev pub as_millis : ℕ → ℕ
as_millis duration = duration / 10 ^ 6

pub record RetrySettings : Type 0 where
  pub initial_delay : ℕ
  pub exp_factor : ℕ
  pub max_delay : ℕ
  pub max_tries : ℕ

-- `RetrySettings::default`
abbrev pub default : RetrySettings
default = record {
  initial_delay = from_millis 1000;
  exp_factor = 2;
  max_delay = from_millis 15000;
  max_tries = 0;
}

abbrev pub no_retries : RetrySettings
no_retries = default

abbrev pub standard_retries : RetrySettings
standard_retries = record default { max_tries = 5 }

-- The factor is an `f64` with the value of a `u32`, so a natural number.
pub record LimitedExponential : Type 0 where
  pub current : ℕ
  pub factor : ℕ
  pub max : ℕ

-- `LimitedExponential::from_retry_settings`
abbrev pub from_retry_settings : RetrySettings → LimitedExponential
from_retry_settings settings = record {
  current = as_millis settings.initial_delay % 2 ^ 64;
  factor = as_f64 settings.exp_factor;
  max = as_millis settings.max_delay % 2 ^ 64;
}

-- The delay after `current`, in milliseconds.
unfoldable pub grow : LimitedExponential → ℕ
grow it =
    let next = mul_f64 (as_f64 it.current) it.factor in
    if ltb (as_f64 it.max) next then it.max else as_u64 next

-- `LimitedExponential::next`, which always yields.
unfoldable pub next : LimitedExponential → ℕ × LimitedExponential
unfolding grow
next it = (from_millis it.current, record it { current = grow it })

-- The first `n` delays.
unfoldable pub delays : ℕ → LimitedExponential → List ℕ
unfolding next
delays zero it = []
delays (suc n) it = let (duration, it') = next it in duration ∷ delays n it'

-- `retry::Error`
pub data RetryError (E : Type 0) : Type 0 where
  operation : E → RetryError E
  internal : RetryError E

-- `retry::OperationResult`: a success, an error to try again after, and an error that ends the retries.
pub data OperationResult (A E : Type 0) : Type 0 where
  op_ok : A → OperationResult A E
  op_retry : E → OperationResult A E
  op_err : E → OperationResult A E

-- The crate `retry`: `jitter k d` is the `k`-th draw of `retry::delay::jitter` from `d`, `from_result`
-- its conversion of a `Result`, and `run` is `retry::retry` on the durations that the policy yields and
-- the operation with its result converted.
pub record Retry (W : Type 0) : Type 1 where
  pub jitter : ℕ → ℕ → ℕ
  pub from_result : (A E : Type 0) → Result A E → OperationResult A E
  pub run :
      (A E : Type 0) → List ℕ → (W → Outcome (OperationResult A E × W)) → Eff W A (RetryError E)

-- `into()` on the result of a call.
into : {W R S : Type 0} → (R → S) → Outcome (R × W) → Outcome (S × W)
into f panics = panics
into f (returns (r, w)) = returns (f r, w)

-- The `map_err` of `RetrySettings::call`: an internal error of the crate is a panic.
settle : {W A E : Type 0} → Outcome (Result A (RetryError E) × W) → Outcome (Result A E × W)
settle panics = panics
settle (returns (ok a, w)) = returns (ok a, w)
settle (returns (err (operation e), w)) = returns (err e, w)
settle (returns (err internal, w)) = panics

module _ {W : Type 0} (retry : Retry W) where
  jittered : ℕ → List ℕ → List ℕ
  jittered k [] = []
  jittered k (d ∷ ds) = retry.jitter k d ∷ jittered (suc k) ds

  -- `RetrySettings::get_exp_backoff_iterator`
  unfoldable pub get_exp_backoff_iterator : RetrySettings → List ℕ
  unfolding jittered
  get_exp_backoff_iterator settings =
      jittered 0 (delays settings.max_tries (from_retry_settings settings))

  -- `RetrySettings::call`, for an operation whose result is converted by `f`.
  unfoldable pub call_operation :
      {R A E : Type 0}
      → (R → OperationResult A E)
      → RetrySettings
      → (W → Outcome (R × W))
      → Eff W A E
  unfolding settle into
  call_operation {R} {A} {E} f settings op w =
      settle (retry.run A E (get_exp_backoff_iterator settings) (λ v. into f (op v)) w)

  -- `RetrySettings::call` for an operation that returns a `Result`, as every caller in the library passes.
  unfoldable pub call : {A E : Type 0} → RetrySettings → Eff W A E → Eff W A E
  call {A} {E} = call_operation (retry.from_result A E)

standard_delays :
    delays standard_retries.max_tries (from_retry_settings standard_retries)
    ≡ map from_millis (1000 ∷ 2000 ∷ 4000 ∷ 8000 ∷ 15000 ∷ [])
unfolding delays as_f64 mul_f64
standard_delays = refl
