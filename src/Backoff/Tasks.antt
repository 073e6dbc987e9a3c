-- ===== src/Backoff/Tasks.antt =====
-- `futures::future::try_join_all` over retried operations (`RetrySettings::call_async` of
-- src/retry_settings.rs): a step relation. Each attempt of a task takes effect at one moment, in any order
-- among those of the other tasks, and its result may be seen later. How often a task is tried is up to
-- the crate `fure`.
pub mod Order
pub mod Stages
use rust_filen.Base.{
  ℕ, zero, suc, ◌≡◌, List, [], ◌∷◌, ◌++◌, Option, none, some, Result, ok, err, returns, map,
}
use rust_filen.Base.Effects.{Eff}

-- A task that may be tried again `n` times after its next attempt, one that has succeeded, and one
-- whose last attempt has failed.
pub data Task (I A E : Type 0) : Type 0 where
  waiting : I → ℕ → Task I A E
  finished : I → A → Task I A E
  failed : I → E → Task I A E

-- Tasks as they start, with the same number of retries.
abbrev pub start : {I A E : Type 0} → ℕ → List I → List (Task I A E)
start n is = map (λ i. waiting i n) is

-- What all tasks return, once all have succeeded.
abbrev pub results : {I A E : Type 0} → List (Task I A E) → Option (List A)
results [] = some []
results (waiting i n ∷ tasks) = none
results (failed i e ∷ tasks) = none
results (finished i a ∷ tasks) = elim (results tasks) [ none ↦ none | some as_ ↦ some (a ∷ as_) ]

module _ {W I A E : Type 0} (op : I → Eff W A E) where
  -- `Joins tasks w r w'`: the tasks, from the state `w` on, may come to the result `r` in the state `w'`.
  pub data Joins : List (Task I A E) → W → Result (List A) E → W → Type 0 where
    -- All have succeeded.
    done :
        {tasks : List (Task I A E)} {w : W} {r : Result (List A) E} {w' : W} (found : List A)
        → results tasks ≡ some found
        → r ≡ ok found
        → w ≡ w'
        → Joins tasks w r w'
    -- An attempt succeeds.
    finishes :
        {tasks : List (Task I A E)} {w : W} {r : Result (List A) E} {w' : W}
        (before after : List (Task I A E)) (i : I) (n : ℕ) (a : A) (v : W)
        → tasks ≡ before ++ (waiting i n ∷ after)
        → op i w ≡ returns (ok a, v)
        → Joins (before ++ (finished i a ∷ after)) v r w'
        → Joins tasks w r w'
    -- An attempt fails, and the task is tried again later.
    fails :
        {tasks : List (Task I A E)} {w : W} {r : Result (List A) E} {w' : W}
        (before after : List (Task I A E)) (i : I) (n : ℕ) (e : E) (v : W)
        → tasks ≡ before ++ (waiting i (suc n) ∷ after)
        → op i w ≡ returns (err e, v)
        → Joins (before ++ (waiting i n ∷ after)) v r w'
        → Joins tasks w r w'
    -- The last attempt of a task fails; until this is seen, the other tasks go on.
    gives_up :
        {tasks : List (Task I A E)} {w : W} {r : Result (List A) E} {w' : W}
        (before after : List (Task I A E)) (i : I) (e : E) (v : W)
        → tasks ≡ before ++ (waiting i zero ∷ after)
        → op i w ≡ returns (err e, v)
        → Joins (before ++ (failed i e ∷ after)) v r w'
        → Joins tasks w r w'
    -- The failure is seen, and the other tasks are dropped.
    stops :
        {tasks : List (Task I A E)} {w : W} {r : Result (List A) E} {w' : W}
        (before after : List (Task I A E)) (i : I) (e : E)
        → tasks ≡ before ++ (failed i e ∷ after)
        → r ≡ err e
        → w ≡ w'
        → Joins tasks w r w'

-- All tasks of one list, and once they have succeeded all tasks of another.
module _ {W I K A C B E : Type 0} (op : I → Eff W A E) (op' : K → Eff W C E) (n : ℕ) (is : List I)
    (ks : List K) (b : B) where
  pub data JoinsBoth : W → Result B E → W → Type 0 where
    first_fails :
        {w : W} {r : Result B E} {w' : W} (e : E)
        → Joins op (start n is) w (err e) w'
        → r ≡ err e
        → JoinsBoth w r w'
    second_fails :
        {w : W} {r : Result B E} {w' : W} (found : List A) (v : W) (e : E)
        → Joins op (start n is) w (ok found) v
        → Joins op' (start n ks) v (err e) w'
        → r ≡ err e
        → JoinsBoth w r w'
    succeeds :
        {w : W} {r : Result B E} {w' : W} (found : List A) (v : W) (found' : List C)
        → Joins op (start n is) w (ok found) v
        → Joins op' (start n ks) v (ok found') w'
        → r ≡ ok b
        → JoinsBoth w r w'
