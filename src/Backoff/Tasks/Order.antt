-- ===== src/Backoff/Tasks/Order.antt =====
-- Retried tasks that run at the same time: the requests that were accepted are one for each task that has
-- finished, in the order in which they finished.
use mathlib.Core.List.{Perm, perm_middle}
use mathlib.Core.List.Perm
use mathlib.Core.Path.{subst}
use rust_filen.Base.{
  ℕ, zero, suc, ◌≡◌, ◌≢◌, refl, sym, ap, ◌∙◌, List, [], ◌∷◌, ◌++◌, map, append_assoc, append-nil,
  map-append, Option, none, some, Result, ok, err,
}
use rust_filen.Base.Effects.{Eff}
use rust_filen.Backoff.Progress.{AllMade, Sends}
use rust_filen.Backoff.Tasks.{
  Task, waiting, finished, failed, start, results, Joins, done, finishes, fails, gives_up, stops,
}

-- The tasks that have not finished.
abbrev pub unfinished : {I A E : Type 0} → List (Task I A E) → List I
unfinished [] = []
unfinished (waiting i n ∷ tasks) = i ∷ unfinished tasks
unfinished (finished i a ∷ tasks) = unfinished tasks
unfinished (failed i e ∷ tasks) = i ∷ unfinished tasks

pub unfinished-start :
    {I : Type 0} (A E : Type 0) (n : ℕ) (is : List I) → unfinished (start {A = A} {E = E} n is) ≡ is
unfinished-start A E n [] = refl
unfinished-start A E n (i ∷ is) = ap (λ js. i ∷ js) (unfinished-start A E n is)

unfinished-append :
    {I A E : Type 0} (xs ys : List (Task I A E))
    → unfinished (xs ++ ys) ≡ unfinished xs ++ unfinished ys
unfinished-append [] ys = refl
unfinished-append (waiting i n ∷ xs) ys = ap (λ js. i ∷ js) (unfinished-append xs ys)
unfinished-append (finished i a ∷ xs) ys = unfinished-append xs ys
unfinished-append (failed i e ∷ xs) ys = ap (λ js. i ∷ js) (unfinished-append xs ys)

after-finished :
    {I A E : Type 0} (i : I) (a : A) (tasks : List (Task I A E)) (found : List A)
    → results (finished i a ∷ tasks) ≡ some found
    → (more : List A) × (results tasks ≡ some more)
after-finished {A = A} i a tasks found h = go (results tasks) refl h
  where
    go :
        (o : Option (List A))
        → results tasks ≡ o
        → elim o [ none ↦ none | some as_ ↦ some (a ∷ as_) ] ≡ some found
        → (more : List A) × (results tasks ≡ some more)
    go none e h = absurd (cc h)
    go (some rest) e h = (rest, e)

results-unfinished :
    {I A E : Type 0} (tasks : List (Task I A E)) (found : List A)
    → results tasks ≡ some found
    → unfinished tasks ≡ []
results-unfinished [] found h = refl
results-unfinished (waiting i n ∷ tasks) found h = absurd (cc h)
results-unfinished (failed i e ∷ tasks) found h = absurd (cc h)
results-unfinished (finished i a ∷ tasks) found h =
    let (more, rest) = after-finished i a tasks found h in results-unfinished tasks more rest

-- What is left undone: nothing on success, something on failure.
abbrev pub Undone : {J A E : Type 0} → Result A E → List J → Type 0
Undone (ok a) rest = rest ≡ []
Undone (err e) rest = rest ≢ []

-- Accepted requests for the items in some order, all of them or, on a failure, some.
abbrev pub InSomeOrder :
    {J X A E : Type 0} → (J → X → Type 0) → List J → Result A E → List X → Type 0
InSomeOrder {J} Made items r xs =
    (js : List J) × (rest : List J) × Perm items (js ++ rest) × AllMade Made js xs × Undone r rest

middle : {J : Type 0} (j : J) (js ks : List J) → js ++ (j ∷ ks) ≢ []
middle j [] ks h = cc h
middle j (k ∷ js) ks h = cc h

module _ {W J X : Type 0} (accepted : W → List X) (Made : J → X → Type 0) {I A E : Type 0}
    (embed : I → J) (op : I → Eff W A E) (sends : Sends accepted Made embed op) where
  abbrev left : List (Task I A E) → List J
  left tasks = map embed (unfinished tasks)

  left-waiting :
      (before after : List (Task I A E)) (i : I) (n : ℕ)
      → left (before ++ (waiting i n ∷ after)) ≡ left before ++ (embed i ∷ left after)
  left-waiting before after i n =
      ap (map embed) (unfinished-append before (waiting i n ∷ after))
      ∙ map-append embed (unfinished before) (i ∷ unfinished after)

  left-failed :
      (before after : List (Task I A E)) (i : I) (e : E)
      → left (before ++ (failed i e ∷ after)) ≡ left before ++ (embed i ∷ left after)
  left-failed before after i e =
      ap (map embed) (unfinished-append before (failed i e ∷ after))
      ∙ map-append embed (unfinished before) (i ∷ unfinished after)

  left-finished :
      (before after : List (Task I A E)) (i : I) (a : A)
      → left (before ++ (finished i a ∷ after)) ≡ left before ++ left after
  left-finished before after i a =
      ap (map embed) (unfinished-append before (finished i a ∷ after))
      ∙ map-append embed (unfinished before) (unfinished after)

  taken-first :
      (before after : List (Task I A E)) (i : I) (n : ℕ) (a : A) (order : List J)
      → Perm (left (before ++ (finished i a ∷ after))) order
      → Perm (left (before ++ (waiting i n ∷ after))) (embed i ∷ order)
  taken-first before after i n a order h =
      subst (λ ks. Perm ks (embed i ∷ order)) (sym (left-waiting before after i n))
        (Perm.trans (perm_middle (left before) (left after))
          (Perm.cons (embed i) (subst (λ ks. Perm ks order) (left-finished before after i a) h)))

  -- A step that adds no request and leaves as much to do.
  unchanged :
      (tasks later : List (Task I A E)) (r : Result (List A) E) (log log_1 log_2 : List X)
      → left later ≡ left tasks
      → log_1 ≡ log
      → (xs : List X) × InSomeOrder Made (left later) r xs × (log_2 ≡ log_1 ++ xs)
      → (xs : List X) × InSomeOrder Made (left tasks) r xs × (log_2 ≡ log ++ xs)
  unchanged tasks later r log log_1 log_2 same kept (xs, order, grew) =
      (xs, subst (λ items. InSomeOrder Made items r xs) same order, grew ∙ ap (λ ys. ys ++ xs) kept)

  -- The accepted requests are one for each task that has finished, in the order of their ends.
  pub Joins-InSomeOrder :
      (tasks : List (Task I A E)) (w : W) (r : Result (List A) E) (w' : W)
      → Joins op tasks w r w'
      → (xs : List X) × InSomeOrder Made (left tasks) r xs × (accepted w' ≡ accepted w ++ xs)
  Joins-InSomeOrder tasks w r w' (done found all returned same) = (
    [],
    (
      [],
      left tasks,
      Perm.refl (left tasks),
      tt,
      rw returned (ap (map embed) (results-unfinished tasks found all)),
    ),
    ap accepted (sym same) ∙ sym (append-nil (accepted w)),
  )
  Joins-InSomeOrder tasks w r w' (finishes before after i n a v here ran more) =
      let (xs, (js, rest, order, made_all, undone), grew) =
        Joins-InSomeOrder (before ++ (finished i a ∷ after)) v r w' more in
      let (x, made, first) = (sends i w v).0 a ran in
      (
        x ∷ xs,
        (
          embed i ∷ js,
          rest,
          subst (λ ts. Perm (left ts) (embed i ∷ js ++ rest)) (sym here)
              (taken-first before after i n a (js ++ rest) order),
          (made, made_all),
          undone,
        ),
        grew ∙ ap (λ ys. ys ++ xs) first ∙ append_assoc (accepted w) (x ∷ []) xs,
      )
  Joins-InSomeOrder tasks w r w' (fails before after i n e v here ran more) =
      unchanged tasks (before ++ (waiting i n ∷ after)) r (accepted w) (accepted v) (accepted w')
        (left-waiting before after i n
          ∙ sym (left-waiting before after i (suc n))
          ∙ ap left (sym here))
        ((sends i w v).1 e ran) (Joins-InSomeOrder (before ++ (waiting i n ∷ after)) v r w' more)
  Joins-InSomeOrder tasks w r w' (gives_up before after i e v here ran more) =
      unchanged tasks (before ++ (failed i e ∷ after)) r (accepted w) (accepted v) (accepted w')
        (left-failed before after i e ∙ sym (left-waiting before after i zero) ∙ ap left (sym here))
        ((sends i w v).1 e ran) (Joins-InSomeOrder (before ++ (failed i e ∷ after)) v r w' more)
  Joins-InSomeOrder tasks w r w' (stops before after i e here returned same) = (
    [],
    (
      [],
      left tasks,
      Perm.refl (left tasks),
      tt,
      rw returned (λ empty.
          middle (embed i) (left before) (left after)
            (sym (left-failed before after i e) ∙ ap left (sym here) ∙ empty)),
    ),
    ap accepted (sym same) ∙ sym (append-nil (accepted w)),
  )
