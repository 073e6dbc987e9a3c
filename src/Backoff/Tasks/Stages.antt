-- ===== src/Backoff/Tasks/Stages.antt =====
-- Two lists of tasks that run at the same time, one list after the other: the requests that were accepted.
use mathlib.Core.Path.{subst}
use rust_filen.Base.{
  ℕ, ◌≡◌, refl, ap, ◌∙◌, List, ◌++◌, map, append_assoc, Result, ok, err, ◌⊎◌, inl, inr,
}
use rust_filen.Base.Effects.{Eff}
use rust_filen.Backoff.Progress.{Sends}
use rust_filen.Backoff.Tasks.{start, Joins, JoinsBoth, first_fails, second_fails, succeeds}
use rust_filen.Backoff.Tasks.Order.{unfinished-start, InSomeOrder, Joins-InSomeOrder}

-- The accepted requests of two lists that a result stands for: some of the first list, or all of it,
-- in some order, and after them those of the second list.
abbrev pub InStages :
    {J X B E : Type 0} → (J → X → Type 0) → List J → List J → Result B E → List X → Type 0
InStages {J} {X} {B} {E} Made js ks r zs =
    ((e : E) × (r ≡ err e) × InSomeOrder {A = B} Made js (err e) zs)
    ⊎ ((xs : List X) × (ys : List X) × (zs ≡ xs ++ ys)
        × InSomeOrder {A = Unit {0}} {E = E} Made js (ok tt) xs
        × InSomeOrder Made ks r ys)

module _ {W J X : Type 0} (accepted : W → List X) (Made : J → X → Type 0) {I K A C B E : Type 0}
    (first : I → J) (second : K → J) (op : I → Eff W A E) (op' : K → Eff W C E)
    (sends : Sends accepted Made first op) (sends' : Sends accepted Made second op') (n : ℕ)
    (is : List I) (ks : List K) (b : B) where
  -- One list, from the start.
  joined :
      {L D : Type 0} (embed : L → J) (run : L → Eff W D E)
      → Sends accepted Made embed run
      → (ls : List L) (w w' : W) (r : Result (List D) E) → Joins run (start n ls) w r w'
      → (xs : List X) × InSomeOrder Made (map embed ls) r xs × (accepted w' ≡ accepted w ++ xs)
  joined {D = D} embed run sending ls w w' r h =
      let (xs, order, grew) =
        Joins-InSomeOrder accepted Made embed run sending (start n ls) w r w' h in
      (
        xs,
        subst (λ items. InSomeOrder Made items r xs) (ap (map embed) (unfinished-start D E n ls))
            order,
        grew,
      )

  pub JoinsBoth-InStages :
      (r : Result B E) (w w' : W)
      → JoinsBoth op op' n is ks b w r w'
      → (zs : List X) × InStages Made (map first is) (map second ks) r zs
        × (accepted w' ≡ accepted w ++ zs)
  JoinsBoth-InStages r w w' (first_fails e ran returned) =
      let (xs, order, grew) = joined first op sends is w w' (err e) ran in
      (xs, inl (e, returned, order), grew)
  JoinsBoth-InStages r w w' (second_fails found v e ran ran' returned) =
      let (xs, order, grew) = joined first op sends is w v (ok found) ran in
      let (ys, order', grows) = joined second op' sends' ks v w' (err e) ran' in
      (
        xs ++ ys,
        inr (xs, ys, refl, order, rw returned order'),
        grows ∙ ap (λ zs. zs ++ ys) grew ∙ append_assoc (accepted w) xs ys,
      )
  JoinsBoth-InStages r w w' (succeeds found v found' ran ran' returned) =
      let (xs, order, grew) = joined first op sends is w v (ok found) ran in
      let (ys, order', grows) = joined second op' sends' ks v w' (ok found') ran' in
      (
        xs ++ ys,
        inr (xs, ys, refl, order, rw returned order'),
        grows ∙ ap (λ zs. zs ++ ys) grew ∙ append_assoc (accepted w) xs ys,
      )

  -- A whole that succeeds gives the value that it was given.
  pub JoinsBoth-ok :
      (r : Result B E) (w w' : W) → JoinsBoth op op' n is ks b w r w' → (a : B) → r ≡ ok a → a ≡ b
  JoinsBoth-ok r w w' (first_fails e ran returned) a h = absurd (cc (returned, h))
  JoinsBoth-ok r w w' (second_fails found v e ran ran' returned) a h = absurd (cc (returned, h))
  JoinsBoth-ok r w w' (succeeds found v found' ran ran' returned) a h = cc (returned, h)
