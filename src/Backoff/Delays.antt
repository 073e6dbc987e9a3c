-- ===== src/Backoff/Delays.antt =====
-- The delays of src/limited_exponential.rs in closed form. All values are milliseconds below 2^53,
-- where `f64` is exact.
use native.Mathlib.Nat.{pow-suc, pow-zero, mul_assoc, mul_comm}
use native.Mathlib.Decide.{dec_le, dec_lt}
use rust_filen.Base.{
  ℕ, zero, suc, ◌*◌, ◌^◌, ◌≤◌, ◌<◌, min, ◌≡◌, refl, sym, ap, ◌∙◌, some, arith, get_elem?, All,
  All-imp,
}
use rust_filen.Backoff.{
  RetrySettings, LimitedExponential, from_millis, as_millis, from_retry_settings, grow, delays,
}
use rust_filen.Backoff.Float.{as_f64_exact, mul_f64_exact, mul_f64_large}

-- Below 285,000 years the delays are exact.
pub record InRange (settings : RetrySettings) : Type 0 where
  pub initial_lt : as_millis settings.initial_delay < 2 ^ 53
  pub max_lt : as_millis settings.max_delay < 2 ^ 53
  pub factor_lt : settings.exp_factor < 2 ^ 32

exact : RetrySettings → LimitedExponential
exact settings = record {
  current = as_millis settings.initial_delay;
  factor = settings.exp_factor;
  max = as_millis settings.max_delay;
}

from_retry_settings-exact :
    (settings : RetrySettings) → InRange settings → from_retry_settings settings ≡ exact settings
unfolding exact
from_retry_settings-exact s r =
    ground (arith, as_f64_exact s.exp_factor, r.initial_lt, r.max_lt, r.factor_lt)

grow-le : (it : LimitedExponential) → it.max < 2 ^ 53 → grow it ≤ it.max
unfolding grow
grow-le it h = ground (arith, as_f64_exact it.max)

grow-min :
    (it : LimitedExponential)
    → it.current < 2 ^ 53
    → it.max < 2 ^ 53
    → grow it ≡ min (it.current * it.factor) it.max
unfolding grow
grow-min it h m =
    rw (as_f64_exact it.current h, as_f64_exact it.max m)
      (elim (dec_lt (it.current * it.factor) (2 ^ 53)) [
        | yes p ↦ rw (mul_f64_exact it.current it.factor p) (ground arith)
        | no p ↦ ground (arith, mul_f64_large it.current it.factor)
      ])

-- The delay before retry `k + 1`, by the formula.
abbrev nth : LimitedExponential → ℕ → ℕ
nth it zero = it.current
nth it (suc k) = min (it.current * it.factor ^ suc k) it.max

pow_pos : (f k : ℕ) → 0 < f → 0 < f ^ k
pow_pos f zero h = omega (arith, pow-zero f)
pow_pos f (suc k) h = grind (arith, pow_pos f k h, pow-suc f k)

-- Capping before the next factors is the same as capping once, if no factor shrinks.
min-mul : (x m p : ℕ) → 0 < p → min (min x m * p) m ≡ min (x * p) m
min-mul x m p h = elim (dec_le x m) [
  | yes le ↦ rw (let e : min x m ≡ x = omega arith in e)
  | no gt ↦
      let a : m ≤ m * p = grind arith in
      let b : m * p ≤ x * p = grind arith in
      rw (let e : min x m ≡ m = omega arith in e) (omega arith)
]

nth-grow :
    (it : LimitedExponential) (k : ℕ)
    → it.current < 2 ^ 53
    → it.max < 2 ^ 53
    → 0 < it.factor
    → nth (record it { current = grow it }) k ≡ nth it (suc k)
nth-grow it zero h m f = rw (grow-min it h m) (
    let e : it.factor ^ 1 ≡ it.factor =
      pow-suc it.factor 0 ∙ rw (pow-zero it.factor) (omega arith) in
    rw e)
nth-grow it (suc k) h m f =
    let p = it.factor ^ suc k in
    let e : it.current * it.factor * p ≡ it.current * it.factor ^ suc (suc k) =
      mul_assoc it.current it.factor p
      ∙ ap (λ (t : ℕ). it.current * t) (mul_comm it.factor p ∙ sym (pow-suc it.factor (suc k))) in
    rw (grow-min it h m, ← e)
      (min-mul (it.current * it.factor) it.max p (pow_pos it.factor (suc k) f))

delays-nth :
    (n k : ℕ) (it : LimitedExponential)
    → it.current < 2 ^ 53
    → it.max < 2 ^ 53
    → 0 < it.factor
    → k < n
    → get_elem? (delays n it) k ≡ some (from_millis (nth it k))
unfolding delays
delays-nth zero k it h m f lt = elim lt [ ]
delays-nth (suc n) zero it h m f lt = refl
delays-nth (suc n) (suc k) it h m f lt =
    delays-nth n k (record it { current = grow it }) (omega (arith, grow-le it m)) m f (omega arith)
    ∙ ap (λ (ms : ℕ). some (from_millis ms)) (nth-grow it k h m f)

-- With a factor of at least 1 the delay before retry `k + 1` is the initial delay times the factor to
-- the power `k`, capped by the maximum delay (the first delay is not capped). Stated for delays below
-- 2^53 milliseconds, counted in whole milliseconds.
pub delays-get_elem? :
    (settings : RetrySettings) (n k : ℕ)
    → InRange settings
    → 0 < settings.exp_factor
    → suc k < n
    → let delay = get_elem? (delays n (from_retry_settings settings)) in
      let initial = as_millis settings.initial_delay in
      (delay 0 ≡ some (from_millis initial))
      × (delay (suc k)
          ≡ some (
              from_millis
                (min (initial * settings.exp_factor ^ suc k) (as_millis settings.max_delay))))
unfolding exact
delays-get_elem? s n k r f h = rw (from_retry_settings-exact s r) (
  delays-nth n 0 (exact s) r.initial_lt r.max_lt f (omega arith),
  delays-nth n (suc k) (exact s) r.initial_lt r.max_lt f h,
)

delays_from-All :
    (n : ℕ) (it : LimitedExponential)
    → it.max < 2 ^ 53
    → it.current ≤ it.max
    → All (λ d. d ≤ from_millis it.max) (delays n it)
unfolding delays
delays_from-All zero it m h = tt
delays_from-All (suc n) it m h =
    (omega arith, delays_from-All n (record it { current = grow it }) m (grow-le it m))

-- If the initial delay is at most the maximum delay, every delay is at most the maximum delay,
-- whatever the factor. Stated for delays below 2^53 milliseconds.
pub delays-All :
    (settings : RetrySettings) (n : ℕ)
    → InRange settings
    → as_millis settings.initial_delay ≤ as_millis settings.max_delay
    → All (λ d. d ≤ settings.max_delay) (delays n (from_retry_settings settings))
unfolding exact
delays-All s n r h = rw (from_retry_settings-exact s r) (
    All-imp (λ d. d ≤ from_millis (as_millis s.max_delay)) (λ d. d ≤ s.max_delay)
      (delays n (exact s)) (λ d le. omega arith) (delays_from-All n (exact s) r.max_lt h))

delays_zero :
    (n k : ℕ) (it : LimitedExponential)
    → it.max < 2 ^ 53
    → it.factor ≡ 0
    → it.current ≡ 0
    → k < n
    → get_elem? (delays n it) k ≡ some 0
unfolding delays
delays_zero zero k it m f c h = elim h [ ]
delays_zero (suc n) zero it m f c h = ap some (omega arith)
delays_zero (suc n) (suc k) it m f c h =
    delays_zero n k (record it { current = grow it }) m f
      (grow-min it (omega arith) m ∙ rw f (omega arith)) (omega arith)

delays_first_zero :
    (n k : ℕ) (it : LimitedExponential)
    → it.current < 2 ^ 53
    → it.max < 2 ^ 53
    → it.factor ≡ 0
    → suc k < n
    → get_elem? (delays n it) (suc k) ≡ some 0
unfolding delays
delays_first_zero zero k it c m f h = elim h [ ]
delays_first_zero (suc n) k it c m f h =
    delays_zero n k (record it { current = grow it }) m f (grow-min it c m ∙ rw f (omega arith))
      (omega arith)

-- With a factor of 0 every delay but the first is zero, although the comment on
-- `RetrySettings::exp_factor` promises the maximum delay.
pub delays_factor_zero :
    (settings : RetrySettings) (n k : ℕ)
    → InRange settings
    → settings.exp_factor ≡ 0
    → suc k < n
    → get_elem? (delays n (from_retry_settings settings)) (suc k) ≡ some 0
unfolding exact
delays_factor_zero s n k r f h =
    rw (from_retry_settings-exact s r) (delays_first_zero n k (exact s) r.initial_lt r.max_lt f h)
