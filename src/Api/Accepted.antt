-- ===== src/Api/Accepted.antt =====
-- Requests that are answered with a status only (`PlainResponsePayload` of src/v1/mod.rs), by the record
-- of those that were accepted. A call makes a payload, sends it and turns the status into a result.
use rust_filen.Base.{
  ◌≡◌, refl, sym, ap, ◌∙◌, List, [], ◌∷◌, ◌++◌, Bool-cases, some, none, Result, ok, err, returns,
  if◌then◌else◌, inl, inr,
}
use rust_filen.Base.Text.{Bytes}
use rust_filen.Base.Effects.{
  Eff, ◌>>=◌, lift, context, bind-ok, bind-err, context-ok, context-cases,
}
use rust_filen.Api.{PlainResponsePayload}

-- The requests that the server said it accepted: only an answer of that status adds to them.
pub record IsLogged {W X Q : Type 0} (request : X → Eff W PlainResponsePayload Q)
    (accepted : W → List X) : Type 0 where
  pub answers :
      (payload : X) (w w' : W) (r : PlainResponsePayload)
      → request payload w ≡ returns (ok r, w')
      → accepted w' ≡ (if r.status then accepted w ++ payload ∷ [] else accepted w)
  pub fails :
      (payload : X) (w w' : W) (e : Q)
      → request payload w ≡ returns (err e, w')
      → accepted w' ≡ accepted w

-- `message.unwrap_or_default()`
abbrev pub message_or_default : PlainResponsePayload → Bytes
message_or_default r = elim r.message [ some message ↦ message | none ↦ [] ]

-- `if response.status { Ok(…) } else { ….fail() }`
abbrev pub by_status :
    {A E : Type 0}
    → (PlainResponsePayload → A)
    → (PlainResponsePayload → E)
    → PlainResponsePayload
    → Result A E
by_status done refused r = if r.status then ok (done r) else err (refused r)

module _ {W X : Type 0} (accepted : W → List X) {E : Type 0} where
  -- A call that adds one good accepted request if it succeeds, and none if it fails.
  abbrev pub Adds : {A : Type 0} → (X → Type 0) → Eff W A E → Type 0
  Adds {A} Good op =
      (w w' : W)
      → ((a : A)
          → op w ≡ returns (ok a, w')
          → (x : X) × Good x × (accepted w' ≡ accepted w ++ x ∷ []))
        × ((e : E) → op w ≡ returns (err e, w') → accepted w' ≡ accepted w)

  -- A call that gives a good payload or fails, and adds nothing.
  abbrev pub Makes : (X → Type 0) → Eff W X E → Type 0
  Makes Good make =
      (w w' : W)
      → ((x : X) → make w ≡ returns (ok x, w') → Good x × (accepted w' ≡ accepted w))
        × ((e : E) → make w ≡ returns (err e, w') → accepted w' ≡ accepted w)

  module _ {A Q : Type 0} (request : X → Eff W PlainResponsePayload Q)
      (lawful : IsLogged request accepted) (wrap : Q → E) (done : PlainResponsePayload → A)
      (refused : PlainResponsePayload → E) where
    abbrev pub send : X → Eff W A E
    send payload =
        context wrap (request payload) >>= λ response. lift (by_status done refused response)

    pub send-ok :
        (payload : X) (a : A) (w w' : W)
        → send payload w ≡ returns (ok a, w')
        → accepted w' ≡ accepted w ++ payload ∷ []
    send-ok payload a w w' h =
        let (r, w_1, asked, h_1) = bind-ok (context wrap (request payload)) _ a w w' h in
        let logged =
          lawful.answers payload w w_1 r (context-ok wrap (request payload) r w w_1 asked) in
        let stays : w_1 ≡ w' = cc h_1 in
        elim (Bool-cases r.status) [
          | inl e ↦ ap accepted (sym stays) ∙ (rw (e) at logged)
          | inr e ↦ absurd (cc (rw (e, by_status) at h_1))
        ]

    -- What it returns it has made of an answer.
    pub send-done :
        (payload : X) (a : A) (w w' : W)
        → send payload w ≡ returns (ok a, w')
        → (r : PlainResponsePayload) × (a ≡ done r)
    send-done payload a w w' h =
        let (r, w_1, asked, h_1) = bind-ok (context wrap (request payload)) _ a w w' h in
        elim (Bool-cases r.status) [
          | inl e ↦ (r, cc (rw (e, by_status) at h_1))
          | inr e ↦ absurd (cc (rw (e, by_status) at h_1))
        ]

    pub send-err :
        (payload : X) (x : E) (w w' : W)
        → send payload w ≡ returns (err x, w')
        → accepted w' ≡ accepted w
    send-err payload x w w' h = elim (bind-err (context wrap (request payload)) _ x w w' h) [
      | inl asked ↦ elim (context-cases wrap (request payload) (err x) w w' asked) [
        | inl (_, _, same) ↦ absurd (cc same)
        | inr (q, found, _) ↦ lawful.fails payload w w' q found
      ]
      | inr (r, w_1, asked, h_1) ↦
          let logged =
            lawful.answers payload w w_1 r (context-ok wrap (request payload) r w w_1 asked) in
          let stays : w_1 ≡ w' = cc h_1 in
          elim (Bool-cases r.status) [
            | inl e ↦ absurd (cc (rw (e, by_status) at h_1))
            | inr e ↦ ap accepted (sym stays) ∙ (rw (e) at logged)
          ]
    ]

    -- Making a payload and sending it.
    pub make_and_send-Adds :
        (Good : X → Type 0) (make : Eff W X E) → Makes Good make → Adds Good (make >>= send)
    make_and_send-Adds Good make makes w w' = (
      λ a h.
          let (x, w_1, made, h_1) = bind-ok make send a w w' h in
          let (good, kept) = (makes w w_1).0 x made in
          (x, good, send-ok x a w_1 w' h_1 ∙ ap (λ xs. xs ++ x ∷ []) kept),
      λ e h. elim (bind-err make send e w w' h) [
        | inl made ↦ (makes w w').1 e made
        | inr (x, w_1, made, h_1) ↦ send-err x e w_1 w' h_1 ∙ ((makes w w_1).0 x made).1
      ],
    )

  -- What a call returns may be dropped.
  pub forget-Adds :
      {A : Type 0} (Good : X → Type 0) (op : Eff W A E)
      → Adds Good op
      → Adds Good (op >>= λ (a : A). lift {E = E} (ok tt))
  forget-Adds Good op adds w w' = (
    λ b h.
        let (a, w_1, got, h_1) = bind-ok op (λ a. lift (ok tt)) b w w' h in
        let stays : w_1 ≡ w' = cc h_1 in
        let (x, good, grew) = (adds w w_1).0 a got in (x, good, ap accepted (sym stays) ∙ grew),
    λ e h. elim (bind-err op (λ a. lift (ok tt)) e w w' h) [
      | inl got ↦ (adds w w').1 e got
      | inr (a, w_1, got, h_1) ↦ absurd (cc h_1)
    ],
  )

  -- A result that needs no state comes first.
  pub lift-Adds :
      {A B : Type 0} (Good : X → Type 0) (r : Result A E) (f : A → Eff W B E)
      → ((a : A) → r ≡ ok a → Adds Good (f a))
      → Adds Good (lift r >>= f)
  lift-Adds Good (ok a) f adds w w' = adds a refl w w'
  lift-Adds Good (err x) f adds w w' =
      (λ a h. absurd (cc h), λ e h. let same : w ≡ w' = cc h in ap accepted (sym same))
