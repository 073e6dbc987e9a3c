-- ===== src/Backoff/Stages.antt =====
-- Two lists of requests, one list after the other: how src/v1/share.rs and src/v1/links.rs go through the
-- folders and then the files of a folder's content.
use rust_filen.Base.{
  ◌≡◌, refl, sym, ap, ◌∙◌, List, [], ◌∷◌, ◌++◌, map, append_assoc, Result, ok, err, returns, inl,
  inr,
}
use rust_filen.Base.Effects.{Eff, ◌>>=◌, lift, traverse, bind-ok, bind-err}
use rust_filen.Backoff.Progress.{
  AllMade, AllMade-append, PartMade, Sends, traverse-AllMade, traverse-PartMade,
}

nil_of_append : {A : Type 0} (xs ys : List A) → xs ++ ys ≡ [] → xs ≡ []
nil_of_append [] ys h = refl
nil_of_append (x ∷ xs) ys h = absurd (cc h)

-- The accepted requests that a result stands for: for all items, or for the first of them.
abbrev pub Left : {J X B E : Type 0} → (J → X → Type 0) → List J → Result B E → List X → Type 0
Left Made js (ok _) xs = AllMade Made js xs
Left Made js (err _) xs = PartMade Made js xs

module _ {W J X : Type 0} (accepted : W → List X) (Made : J → X → Type 0) {I K A C B E : Type 0}
    (first : I → J) (second : K → J) (op : I → Eff W A E) (op' : K → Eff W C E)
    (sends : Sends accepted Made first op) (sends' : Sends accepted Made second op') (is : List I)
    (ks : List K) (b : B) where
  abbrev pub stages : Eff W B E
  stages = traverse op is >>= λ (done : List A). traverse op' ks >>= λ (done' : List C). lift (ok b)

  abbrev items : List J
  items = map first is ++ map second ks

  joined :
      (xs ys : List X) (w v v' : W)
      → accepted v ≡ accepted w ++ xs
      → accepted v' ≡ accepted v ++ ys
      → accepted v' ≡ accepted w ++ (xs ++ ys)
  joined xs ys w v v' one two = two ∙ ap (λ zs. zs ++ ys) one ∙ append_assoc (accepted w) xs ys

  -- The second list follows the first, all of it or its first items.
  second-Left :
      (r : Result B E) (xs : List X) (w v w' : W)
      → AllMade Made (map first is) xs
      → accepted v ≡ accepted w ++ xs
      → (traverse op' ks >>= λ (done' : List C). lift (ok b)) v ≡ returns (r, w')
      → (zs : List X) × Left Made items r zs × (accepted w' ≡ accepted w ++ zs)
  second-Left (ok a) xs w v w' all grew h =
      let (found, v_1, got, h_1) = bind-ok (traverse op' ks) _ a v w' h in
      let stays : v_1 ≡ w' = cc h_1 in
      let (ys, more, grows) = traverse-AllMade accepted Made second op' sends' ks v v_1 found got in
      (
        xs ++ ys,
        AllMade-append Made (map first is) xs (map second ks) ys all more,
        ap accepted (sym stays) ∙ joined xs ys w v v_1 grew grows,
      )
  second-Left (err e) xs w v w' all grew h = elim (bind-err (traverse op' ks) _ e v w' h) [
    | inl got ↦
        let (ys, (done, later, split, some_left, part), grows) =
          traverse-PartMade accepted Made second op' sends' ks v w' e got in
        let front = map first is in
        (
          xs ++ ys,
          (
            front ++ done,
            later,
            ap (λ js. front ++ js) split ∙ sym (append_assoc front done later),
            some_left,
            AllMade-append Made front xs done ys all part,
          ),
          joined xs ys w v w' grew grows,
        )
    | inr (_, _, _, h_1) ↦ absurd (cc h_1)
  ]

  -- All items of both lists if the whole succeeds, and the first of them if it fails.
  pub stages-Left :
      (r : Result B E) (w w' : W)
      → stages w ≡ returns (r, w')
      → (xs : List X) × Left Made items r xs × (accepted w' ≡ accepted w ++ xs)
  stages-Left (ok a) w w' h =
      let (found, v, got, h_1) = bind-ok (traverse op is) _ a w w' h in
      let (xs, all, grew) = traverse-AllMade accepted Made first op sends is w v found got in
      second-Left (ok a) xs w v w' all grew h_1
  stages-Left (err e) w w' h = elim (bind-err (traverse op is) _ e w w' h) [
    | inl got ↦
        let (xs, (done, later, split, some_left, part), grows) =
          traverse-PartMade accepted Made first op sends is w w' e got in
        let back = map second ks in
        (
          xs,
          (
            done,
            later ++ back,
            ap (λ js. js ++ back) split ∙ append_assoc done later back,
            λ empty. some_left (nil_of_append later back empty),
            part,
          ),
          grows,
        )
    | inr (found, v, got, h_1) ↦
        let (xs, all, grew) = traverse-AllMade accepted Made first op sends is w v found got in
        second-Left (err e) xs w v w' all grew h_1
  ]

  -- A whole that succeeds gives the value that it was given.
  pub stages-ok : (a : B) (w w' : W) → stages w ≡ returns (ok a, w') → a ≡ b
  stages-ok a w w' h =
      let (_, v, _, h_1) = bind-ok (traverse op is) _ a w w' h in
      let (_, v_1, _, h_2) = bind-ok (traverse op' ks) _ a v w' h_1 in cc h_2
