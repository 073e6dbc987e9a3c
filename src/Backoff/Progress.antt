-- ===== src/Backoff/Progress.antt =====
-- One retried request after the other (`RetrySettings::call` under an iterator that is collected into a
-- `Result`), by the record of the requests that were accepted.
use rust_filen.Base.{
  ◌≡◌, ◌≢◌, refl, sym, ap, ◌∙◌, List, [], ◌∷◌, ◌++◌, map, append_assoc, append-nil, ok, err,
  returns, inl, inr,
}
use rust_filen.Base.Effects.{Eff, traverse, bind-ok, bind-err}
use rust_filen.Backoff.{RetrySettings, Retry, call}
use rust_filen.Backoff.Call.{IsRetry, Keeps, attempts-Good, attempts-Kept, call-attempts}

-- One accepted request for each item, in order.
abbrev pub AllMade : {J X : Type 0} → (J → X → Type 0) → List J → List X → Type 0
AllMade Made [] [] = Unit
AllMade Made (j ∷ js) (x ∷ xs) = Made j x × AllMade Made js xs
AllMade Made [] (x ∷ xs) = ⊥
AllMade Made (j ∷ js) [] = ⊥

pub AllMade-append :
    {J X : Type 0} (Made : J → X → Type 0) (js : List J) (xs : List X) (ks : List J) (ys : List X)
    → AllMade Made js xs
    → AllMade Made ks ys
    → AllMade Made (js ++ ks) (xs ++ ys)
AllMade-append Made [] [] ks ys h k = k
AllMade-append Made [] (x ∷ xs) ks ys h k = absurd h
AllMade-append Made (j ∷ js) [] ks ys h k = absurd h
AllMade-append Made (j ∷ js) (x ∷ xs) ks ys (m, h) k = (m, AllMade-append Made js xs ks ys h k)

-- Requests for the first of the items, and for no other.
abbrev pub PartMade : {J X : Type 0} → (J → X → Type 0) → List J → List X → Type 0
PartMade {J} Made js xs =
    (done : List J) × (rest : List J) × (js ≡ done ++ rest) × (rest ≢ []) × AllMade Made done xs

module _ {W J X : Type 0} (accepted : W → List X) (Made : J → X → Type 0) where
  -- A call for an item that adds one accepted request if it succeeds, and none if it fails.
  abbrev pub Sends : {I A E : Type 0} → (I → J) → (I → Eff W A E) → Type 0
  Sends {I} {A} {E} embed op =
      (i : I) (w w' : W)
      → ((a : A)
          → op i w ≡ returns (ok a, w')
          → (x : X) × Made (embed i) x × (accepted w' ≡ accepted w ++ x ∷ []))
        × ((e : E) → op i w ≡ returns (err e, w') → accepted w' ≡ accepted w)

  module _ {I A E : Type 0} (embed : I → J) where
    -- With retries, a call still adds one accepted request or none.
    pub call-Sends :
        (retry : Retry W)
        → IsRetry retry
        → (settings : RetrySettings) (op : I → Eff W A E) → Sends embed op
        → Sends embed (λ i. call retry settings (op i))
    call-Sends retry lawful settings op sends i w w' =
        let Good : A → W → Type 0 =
          λ a v. (x : X) × Made (embed i) x × (accepted v ≡ accepted w ++ x ∷ []) in
        let keeps : Keeps (λ v. accepted v ≡ accepted w) Good (op i) = λ v v' k. (
          λ a h.
              let (x, made, grew) = (sends i v v').0 a h in
              (x, made, grew ∙ ap (λ xs. xs ++ x ∷ []) k),
          λ e h. (sends i v v').1 e h ∙ k,
        ) in
        let counted = call-attempts retry lawful A E settings (op i) w in
        (
          λ a h.
              attempts-Good (λ v. accepted v ≡ accepted w) Good (op i) keeps settings.max_tries w w'
                a refl (sym counted ∙ h),
          λ e h.
              attempts-Kept (λ v. accepted v ≡ accepted w) Good (op i) keeps settings.max_tries w w'
                e refl (sym counted ∙ h),
        )

    module _ (op : I → Eff W A E) (sends : Sends embed op) where
      -- All calls succeed: one accepted request for each item, in order.
      pub traverse-AllMade :
          (is : List I) (w w' : W) (found : List A)
          → traverse op is w ≡ returns (ok found, w')
          → (xs : List X) × AllMade Made (map embed is) xs × (accepted w' ≡ accepted w ++ xs)
      unfolding traverse
      traverse-AllMade [] w w' found h =
          ([], tt, ap accepted (cc h) ∙ sym (append-nil (accepted w)))
      traverse-AllMade (i ∷ is) w w' found h =
          let (a, w_1, got, h_1) = bind-ok (op i) _ found w w' h in
          let (more, w_2, rest, h_2) = bind-ok (traverse op is) _ found w_1 w' h_1 in
          let (x, made, grew) = (sends i w w_1).0 a got in
          let (xs, all, grows) = traverse-AllMade is w_1 w_2 more rest in
          let stays : w_2 ≡ w' = cc h_2 in
          (
            x ∷ xs,
            (made, all),
            ap accepted (sym stays)
                ∙ grows
                ∙ ap (λ ys. ys ++ xs) grew
                ∙ append_assoc (accepted w) (x ∷ []) xs,
          )

      -- A call fails: accepted requests for the items before it, and for no other.
      pub traverse-PartMade :
          (is : List I) (w w' : W) (e : E)
          → traverse op is w ≡ returns (err e, w')
          → (xs : List X) × PartMade Made (map embed is) xs × (accepted w' ≡ accepted w ++ xs)
      unfolding traverse
      traverse-PartMade [] w w' e h = absurd (cc h)
      traverse-PartMade (i ∷ is) w w' e h = elim (bind-err (op i) _ e w w' h) [
        | inl got ↦ (
          [],
          ([], embed i ∷ map embed is, refl, λ empty. cc empty, tt),
          (sends i w w').1 e got ∙ sym (append-nil (accepted w)),
        )
        | inr (a, w_1, got, h_1) ↦ elim (bind-err (traverse op is) _ e w_1 w' h_1) [
          | inl rest ↦
              let (x, made, grew) = (sends i w w_1).0 a got in
              let (xs, (done, later, split, some_left, all), grows) =
                traverse-PartMade is w_1 w' e rest in
              (
                x ∷ xs,
                (embed i ∷ done, later, ap (λ js. embed i ∷ js) split, some_left, (made, all)),
                grows ∙ ap (λ ys. ys ++ xs) grew ∙ append_assoc (accepted w) (x ∷ []) xs,
              )
          | inr (_, _, _, h_2) ↦ absurd (cc h_2)
        ]
      ]
