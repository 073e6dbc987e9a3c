-- ===== src/Backoff/Call.antt =====
-- `RetrySettings::call` (src/retry_settings.rs) as a bounded sequence of attempts.
use rust_filen.Base.{
  ℕ, zero, suc, ◌≡◌, refl, ◌∙◌, List, [], ◌∷◌, arith, ok, err, returns, panics, Outcome, Result,
  length, ap,
}
use rust_filen.Base.Effects.{Eff}
use rust_filen.Backoff.{
  RetrySettings, Retry, OperationResult, op_ok, op_retry, op_err, operation, into, delays, jittered,
  get_exp_backoff_iterator, call, call_operation, settle, next, LimitedExponential,
}

-- What the crate `retry` documents of `retry::retry`: "Retry the given operation synchronously until
-- it succeeds, or until the given `Duration` iterator ends", where an `OperationResult::Err` ends it at
-- once, and the error of a `Result` is an `OperationResult::Retry`.
pub record IsRetry {W : Type 0} (retry : Retry W) : Type 1 where
  pub from_result-ok : (A E : Type 0) (a : A) → retry.from_result A E (ok a) ≡ op_ok a
  pub from_result-err : (A E : Type 0) (e : E) → retry.from_result A E (err e) ≡ op_retry e
  pub first_ok :
      (A E : Type 0) (ds : List ℕ) (op : W → Outcome (OperationResult A E × W)) (w w' : W) (a : A)
      → op w ≡ returns (op_ok a, w')
      → retry.run A E ds op w ≡ returns (ok a, w')
  pub first_panics :
      (A E : Type 0) (ds : List ℕ) (op : W → Outcome (OperationResult A E × W)) (w : W)
      → op w ≡ panics
      → retry.run A E ds op w ≡ panics
  pub first_err :
      (A E : Type 0) (ds : List ℕ) (op : W → Outcome (OperationResult A E × W)) (w w' : W) (e : E)
      → op w ≡ returns (op_err e, w')
      → retry.run A E ds op w ≡ returns (err (operation e), w')
  pub last_try :
      (A E : Type 0) (op : W → Outcome (OperationResult A E × W)) (w w' : W) (e : E)
      → op w ≡ returns (op_retry e, w')
      → retry.run A E [] op w ≡ returns (err (operation e), w')
  pub next_try :
      (A E : Type 0) (d : ℕ) (ds : List ℕ) (op : W → Outcome (OperationResult A E × W)) (w w' : W)
      (e : E)
      → op w ≡ returns (op_retry e, w')
      → retry.run A E (d ∷ ds) op w ≡ retry.run A E ds op w'

-- At most `n + 1` attempts, each where the one before it left off; the last error is kept.
unfoldable pub attempts : {W A E : Type 0} → ℕ → Eff W A E → Eff W A E
attempts zero op w = op w
attempts (suc n) op w = elim (op w) [
  | panics ↦ panics
  | returns (ok a, w') ↦ returns (ok a, w')
  | returns (err e, w') ↦ attempts n op w'
]

-- What each failed attempt keeps of the state, the attempt that succeeds begins with.
module _ {W A E : Type 0} (Kept : W → Type 0) (Good : A → W → Type 0) (op : Eff W A E) where
  -- An attempt from a kept state that fails keeps it; one that succeeds is good.
  abbrev pub Keeps : Type 0
  Keeps =
      (w w' : W)
      → Kept w
      → ((a : A) → op w ≡ returns (ok a, w') → Good a w')
        × ((e : E) → op w ≡ returns (err e, w') → Kept w')

  attempt-Kept :
      Keeps
      → (n : ℕ) (w w' : W) (a : A) (o : Outcome (Result A E × W)) → op w ≡ o
      → ((v : W) → Kept v → attempts n op v ≡ returns (ok a, w') → Good a w')
      → Kept w
      → attempts (suc n) op w ≡ returns (ok a, w')
      → Good a w'
  unfolding attempts
  attempt-Kept keeps n w w' a panics e rest k h = let h' = rw (e, attempts) at h in absurd (cc h')
  attempt-Kept keeps n w w' a (returns (ok b, v)) e rest k h =
      let h' = rw (e, attempts) at h in (keeps w w' k).0 a (e ∙ h')
  attempt-Kept keeps n w w' a (returns (err x, v)) e rest k h =
      let h' = rw (e, attempts) at h in rest v ((keeps w v k).1 x e) h'

  pub attempts-Good :
      Keeps → (n : ℕ) (w w' : W) (a : A) → Kept w → attempts n op w ≡ returns (ok a, w') → Good a w'
  attempts-Good keeps zero w w' a k h = unfold attempts in (keeps w w' k).0 a h
  attempts-Good keeps (suc n) w w' a k h =
      attempt-Kept keeps n w w' a (op w) refl (λ v. attempts-Good keeps n v w' a) k h

  last-Kept :
      Keeps
      → (n : ℕ) (w w' : W) (e : E) (o : Outcome (Result A E × W)) → op w ≡ o
      → ((v : W) → Kept v → attempts n op v ≡ returns (err e, w') → Kept w')
      → Kept w
      → attempts (suc n) op w ≡ returns (err e, w')
      → Kept w'
  unfolding attempts
  last-Kept keeps n w w' e panics eq rest k h = absurd (cc (rw (eq, attempts) at h))
  last-Kept keeps n w w' e (returns (ok b, v)) eq rest k h = absurd (cc (rw (eq, attempts) at h))
  last-Kept keeps n w w' e (returns (err x, v)) eq rest k h =
      rest v ((keeps w v k).1 x eq) (rw (eq, attempts) at h)

  -- If all attempts fail, the state is kept.
  pub attempts-Kept :
      Keeps → (n : ℕ) (w w' : W) (e : E) → Kept w → attempts n op w ≡ returns (err e, w') → Kept w'
  attempts-Kept keeps zero w w' e k h = unfold attempts in (keeps w w' k).1 e h
  attempts-Kept keeps (suc n) w w' e k h =
      last-Kept keeps n w w' e (op w) refl (λ v. attempts-Kept keeps n v w' e) k h

module _ {W : Type 0} (retry : Retry W) (lawful : IsRetry retry) where
  -- The operation with its result converted.
  abbrev converted : (A E : Type 0) → Eff W A E → W → Outcome (OperationResult A E × W)
  converted A E op v = into (retry.from_result A E) (op v)

  converted-ok :
      (A E : Type 0) (op : Eff W A E) (w w' : W) (a : A)
      → op w ≡ returns (ok a, w')
      → converted A E op w ≡ returns (op_ok a, w')
  unfolding into
  converted-ok A E op w w' a e = rw (e, lawful.from_result-ok A E a, into) refl

  converted-err :
      (A E : Type 0) (op : Eff W A E) (w w' : W) (x : E)
      → op w ≡ returns (err x, w')
      → converted A E op w ≡ returns (op_retry x, w')
  unfolding into
  converted-err A E op w w' x e = rw (e, lawful.from_result-err A E x, into) refl

  converted-panics :
      (A E : Type 0) (op : Eff W A E) (w : W) → op w ≡ panics → converted A E op w ≡ panics
  unfolding into
  converted-panics A E op w e = rw (e, into) refl

  settle-nil :
      (A E : Type 0) (op : Eff W A E) (w : W) (o : Outcome (Result A E × W))
      → op w ≡ o
      → settle (retry.run A E [] (converted A E op) w) ≡ o
  unfolding settle
  settle-nil A E op w panics e =
      rw (lawful.first_panics A E [] (converted A E op) w (converted-panics A E op w e))
  settle-nil A E op w (returns (ok a, w')) e =
      rw (lawful.first_ok A E [] (converted A E op) w w' a (converted-ok A E op w w' a e))
  settle-nil A E op w (returns (err x, w')) e =
      rw (lawful.last_try A E (converted A E op) w w' x (converted-err A E op w w' x e))

  settle-cons :
      (A E : Type 0) (d n : ℕ) (ds : List ℕ) (op : Eff W A E) (w : W)
      → ((w' : W) → settle (retry.run A E ds (converted A E op) w') ≡ attempts n op w')
      → (o : Outcome (Result A E × W)) → op w ≡ o
      → settle (retry.run A E (d ∷ ds) (converted A E op) w) ≡ attempts (suc n) op w
  unfolding settle attempts
  settle-cons A E d n ds op w ih panics e =
      let run =
        lawful.first_panics A E (d ∷ ds) (converted A E op) w (converted-panics A E op w e) in
      rw (run, e, attempts)
  settle-cons A E d n ds op w ih (returns (ok a, w')) e =
      let run =
        lawful.first_ok A E (d ∷ ds) (converted A E op) w w' a (converted-ok A E op w w' a e) in
      rw (run, e, attempts)
  settle-cons A E d n ds op w ih (returns (err x, w')) e =
      let run =
        lawful.next_try A E d ds (converted A E op) w w' x (converted-err A E op w w' x e) in
      rw (run, e, attempts) (ih w')

  settle-run :
      (A E : Type 0) (ds : List ℕ) (op : Eff W A E) (w : W)
      → settle (retry.run A E ds (converted A E op) w) ≡ attempts (length ds) op w
  settle-run A E [] op w = unfold attempts in settle-nil A E op w (op w) refl
  settle-run A E (d ∷ ds) op w =
      settle-cons A E d (length ds) ds op w (settle-run A E ds op) (op w) refl

length-delays : (n : ℕ) (it : LimitedExponential) → length (delays n it) ≡ n
unfolding delays
length-delays zero it = omega arith
length-delays (suc n) it = ap suc (length-delays n (next it).1)

length-jittered :
    {W : Type 0} (retry : Retry W) (k : ℕ) (ds : List ℕ) → length (jittered retry k ds) ≡ length ds
unfolding jittered
length-jittered retry k [] = refl
length-jittered retry k (d ∷ ds) = ap suc (length-jittered retry (suc k) ds)

length-get_exp_backoff_iterator :
    {W : Type 0} (retry : Retry W) (settings : RetrySettings)
    → length (get_exp_backoff_iterator retry settings) ≡ settings.max_tries
unfolding get_exp_backoff_iterator
length-get_exp_backoff_iterator retry s = length-jittered retry 0 _ ∙ length-delays s.max_tries _

-- `RetrySettings::call` runs the operation once and then at most `max_tries` times more, each time
-- from the state that the failed attempt left behind; it returns the first success, or the last error
-- if all attempts fail. Stated for a crate `retry` that keeps its documented promise.
pub call-attempts :
    {W : Type 0} (retry : Retry W)
    → IsRetry retry
    → (A E : Type 0) (settings : RetrySettings) (op : Eff W A E) (w : W)
    → call retry settings op w ≡ attempts settings.max_tries op w
unfolding call call_operation
call-attempts retry lawful A E s op w =
    settle-run retry lawful A E (get_exp_backoff_iterator retry s) op w
    ∙ ap (λ (n : ℕ). attempts n op w) (length-get_exp_backoff_iterator retry s)

-- An operation that succeeds is called once.
pub call-first :
    {W : Type 0} (retry : Retry W)
    → IsRetry retry
    → (A E : Type 0) (settings : RetrySettings) (op : Eff W A E) (w w' : W) (a : A)
    → op w ≡ returns (ok a, w')
    → call retry settings op w ≡ returns (ok a, w')
unfolding call call_operation settle
call-first retry lawful A E settings op w w' a h =
    let ran =
      lawful.first_ok A E (get_exp_backoff_iterator retry settings) (converted retry lawful A E op)
        w w' a (converted-ok retry lawful A E op w w' a h) in
    rw (ran, settle) refl
