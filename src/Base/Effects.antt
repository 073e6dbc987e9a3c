-- ===== src/Base/Effects.antt =====
-- Calls that act on a state `W` (the servers, the reader, the writer, the random generator), may fail
-- with an error `E` and may panic. What a failed call did to the state stays done.
use mathlib.Core.Path.{◌≡◌, refl}
use mathlib.Core.Logic.{◌⊎◌, inl, inr}
use mathlib.Core.List.{List, [], ◌∷◌}
use rust_filen.Base.Lists.{All}
use rust_filen.Base.Results.{Result, ok, err, Outcome, returns, panics}

abbrev pub Eff {ℓ κ} : Type 0 → Type ℓ → Type κ → Type (ℓ ⊔ κ)
Eff W A E = W → Outcome (Result A E × W)

module _ {ℓ κ μ} {W : Type 0} {A : Type ℓ} {B : Type κ} {E : Type μ} where
  -- What comes after the outcome of a call.
  abbrev pub and_then : (A → Eff W B E) → Outcome (Result A E × W) → Outcome (Result B E × W)
  and_then f panics = panics
  and_then f (returns (ok a, w)) = f a w
  and_then f (returns (err e, w)) = returns (err e, w)

  and_then-ok :
      (f : A → Eff W B E) (o : Outcome (Result A E × W)) (b : B) (w : W)
      → and_then f o ≡ returns (ok b, w)
      → (a : A) × (v : W) × (o ≡ returns (ok a, v)) × (f a v ≡ returns (ok b, w))
  and_then-ok f panics b w h = absurd (cc h)
  and_then-ok f (returns (ok a, v)) b w h = (a, v, refl, h)
  and_then-ok f (returns (err e, v)) b w h = absurd (cc h)

  and_then-err :
      (f : A → Eff W B E) (o : Outcome (Result A E × W)) (e : E) (w : W)
      → and_then f o ≡ returns (err e, w)
      → (o ≡ returns (err e, w))
        ⊎ ((a : A) × (v : W) × (o ≡ returns (ok a, v)) × (f a v ≡ returns (err e, w)))
  and_then-err f panics e w h = absurd (cc h)
  and_then-err f (returns (ok a, v)) e w h = inr (a, v, refl, h)
  and_then-err f (returns (err x, v)) e w h = inl (cc h)

-- `?`, in sequence.
infixl 5 ◌>>=◌ ◌>>◌
abbrev pub ◌>>=◌ {ℓ κ μ} :
    {W : Type 0} {A : Type ℓ} {B : Type κ} {E : Type μ} → Eff W A E → (A → Eff W B E) → Eff W B E
◌>>=◌ m f w = and_then f (m w)

abbrev pub ◌>>◌ {ℓ κ} :
    {W : Type 0} {B : Type ℓ} {E : Type κ} → Eff W (Unit {0}) E → Eff W B E → Eff W B E
m >> k = m >>= λ _. k

-- A sequence that succeeds is two calls that succeed.
pub bind-ok {ℓ κ μ} :
    {W : Type 0} {A : Type ℓ} {B : Type κ} {E : Type μ} (m : Eff W A E) (f : A → Eff W B E) (b : B)
    (u w : W)
    → (m >>= f) u ≡ returns (ok b, w)
    → (a : A) × (v : W) × (m u ≡ returns (ok a, v)) × (f a v ≡ returns (ok b, w))
bind-ok m f b u w h = and_then-ok f (m u) b w h

-- A sequence that fails fails in its first call or in its second.
pub bind-err {ℓ κ μ} :
    {W : Type 0} {A : Type ℓ} {B : Type κ} {E : Type μ} (m : Eff W A E) (f : A → Eff W B E) (e : E)
    (u w : W)
    → (m >>= f) u ≡ returns (err e, w)
    → (m u ≡ returns (err e, w))
      ⊎ ((a : A) × (v : W) × (m u ≡ returns (ok a, v)) × (f a v ≡ returns (err e, w)))
bind-err m f e u w h = and_then-err f (m u) e w h

-- A result that needs no state.
abbrev pub lift {ℓ κ} : {W : Type 0} {A : Type ℓ} {E : Type κ} → Result A E → Eff W A E
lift r w = returns (r, w)

module _ {ℓ κ μ} {W : Type 0} {A : Type ℓ} {E : Type κ} {F : Type μ} (f : E → F) where
  abbrev pub with_context : Outcome (Result A E × W) → Outcome (Result A F × W)
  with_context panics = panics
  with_context (returns (ok a, w)) = returns (ok a, w)
  with_context (returns (err e, w)) = returns (err (f e), w)

  with_context-ok :
      (o : Outcome (Result A E × W)) (a : A) (w : W)
      → with_context o ≡ returns (ok a, w)
      → o ≡ returns (ok a, w)
  with_context-ok panics a w h = absurd (cc h)
  with_context-ok (returns (ok b, v)) a w h = cc h
  with_context-ok (returns (err e, v)) a w h = absurd (cc h)

  with_context-cases :
      (o : Outcome (Result A E × W)) (r : Result A F) (w : W)
      → with_context o ≡ returns (r, w)
      → ((a : A) × (o ≡ returns (ok a, w)) × (r ≡ ok a))
        ⊎ ((e : E) × (o ≡ returns (err e, w)) × (r ≡ err (f e)))
  with_context-cases panics r w h = absurd (cc h)
  with_context-cases (returns (ok a, v)) r w h = inl (a, cc h, cc h)
  with_context-cases (returns (err e, v)) r w h = inr (e, cc h, cc h)

  -- `.context(…)` on a call.
  abbrev pub context : Eff W A E → Eff W A F
  context m w = with_context (m w)

  pub context-cases :
      (m : Eff W A E) (r : Result A F) (u w : W)
      → context m u ≡ returns (r, w)
      → ((a : A) × (m u ≡ returns (ok a, w)) × (r ≡ ok a))
        ⊎ ((e : E) × (m u ≡ returns (err e, w)) × (r ≡ err (f e)))
  context-cases m r u w h = with_context-cases (m u) r w h

  pub context-ok :
      (m : Eff W A E) (a : A) (u w : W) → context m u ≡ returns (ok a, w) → m u ≡ returns (ok a, w)
  context-ok m a u w h = with_context-ok (m u) a w h

-- `iter().map(…).collect::<Result<Vec<_>>>()`: one call after the other, up to the first that fails.
unfoldable pub traverse {ℓ κ μ} :
    {W : Type 0} {A : Type ℓ} {B : Type κ} {E : Type μ}
    → (A → Eff W B E)
    → List A
    → Eff W (List B) E
traverse f [] = lift (ok [])
traverse f (a ∷ rest) = f a >>= λ b. traverse f rest >>= λ bs. lift (ok (b ∷ bs))

pub traverse-total {ℓ κ μ} :
    {W : Type 0} {A : Type ℓ} {B : Type κ} {E : Type μ} (f : A → Eff W B E) (xs : List A)
    → All (λ a. (w : W) → (b : B) × (w' : W) × (f a w ≡ returns (ok b, w'))) xs
    → (w : W) → (bs : List B) × (w' : W) × (traverse f xs w ≡ returns (ok bs, w'))
unfolding traverse
traverse-total f [] h w = ([], w, refl)
traverse-total f (x ∷ xs) (hx, hs) w =
    let (b, w_1, e) = hx w in
    let (bs, w_2, es) = traverse-total f xs hs w_1 in (b ∷ bs, w_2, rw (e, es) refl)
