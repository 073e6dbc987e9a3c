-- ===== src/Base/Lists.antt =====
-- Lists (`Vec`, slices) measured by native numbers, under the library's names.
use Prim.Native.Nat.{ℕ, zero, suc, ◌+◌, ◌-◌, ◌%◌, ◌^◌, ◌≤◌, ◌<◌, min}
use mathlib.Core.Path.{◌≡◌, refl, ap, sym, ◌∙◌, subst}
use mathlib.Core.Bool.{Bool, true, false}
use mathlib.Core.List.{List, [], ◌∷◌, ◌++◌, map, append-nil, append_assoc}
use mathlib.Core.Option.{Option, none, some}
use native.Mathlib.Decide.{dec_le}
use native.Mathlib.Omega.{arith}

module _ {ℓ} {A : Type ℓ} where
  abbrev pub length : List A → ℕ
  length [] = 0
  length (x ∷ xs) = suc (length xs)

  abbrev pub take : ℕ → List A → List A
  take zero xs = []
  take (suc n) [] = []
  take (suc n) (x ∷ xs) = x ∷ take n xs

  abbrev pub drop : ℕ → List A → List A
  drop zero xs = xs
  drop (suc n) [] = []
  drop (suc n) (x ∷ xs) = drop n xs

  -- `slice.last()`
  abbrev pub get_last? : List A → Option A
  get_last? [] = none
  get_last? (x ∷ []) = some x
  get_last? (x ∷ y ∷ xs) = get_last? (y ∷ xs)

  abbrev pub replicate : ℕ → A → List A
  replicate zero a = []
  replicate (suc n) a = a ∷ replicate n a

  abbrev pub get_elem? : List A → ℕ → Option A
  get_elem? [] i = none
  get_elem? (x ∷ xs) zero = some x
  get_elem? (x ∷ xs) (suc i) = get_elem? xs i

  abbrev pub is_empty : List A → Bool
  is_empty [] = true
  is_empty (_ ∷ _) = false

  abbrev pub concat : List (List A) → List A
  concat [] = []
  concat (xs ∷ xss) = xs ++ concat xss

  abbrev pub All {κ} : (A → Type κ) → List A → Type κ
  All P [] = Unit
  All P (x ∷ xs) = P x × All P xs

module _ {ℓ} {A : Type ℓ} where
  pub length-append : (xs ys : List A) → length (xs ++ ys) ≡ length xs + length ys
  length-append [] ys = omega arith
  length-append (x ∷ xs) ys = omega (arith, length-append xs ys)

  pub take-append-drop : (n : ℕ) (xs : List A) → take n xs ++ drop n xs ≡ xs
  take-append-drop zero xs = refl
  take-append-drop (suc n) [] = refl
  take-append-drop (suc n) (x ∷ xs) = rw (take-append-drop n xs)

  pub length-take : (n : ℕ) (xs : List A) → length (take n xs) ≡ min n (length xs)
  length-take zero xs = omega arith
  length-take (suc n) [] = omega arith
  length-take (suc n) (x ∷ xs) = omega (arith, length-take n xs)

  pub length-drop : (n : ℕ) (xs : List A) → length (drop n xs) ≡ length xs - n
  length-drop zero xs = omega arith
  length-drop (suc n) [] = omega arith
  length-drop (suc n) (x ∷ xs) = omega (arith, length-drop n xs)

  drop-nil : (n : ℕ) → drop {A = A} n [] ≡ []
  drop-nil zero = refl
  drop-nil (suc n) = refl

  pub take_all : (n : ℕ) (xs : List A) → length xs ≤ n → take n xs ≡ xs
  take_all zero [] h = refl
  take_all zero (x ∷ xs) h = absurd (omega arith)
  take_all (suc n) [] h = refl
  take_all (suc n) (x ∷ xs) h = rw (take_all n xs (omega arith))

  pub drop_all : (n : ℕ) (xs : List A) → length xs ≤ n → drop n xs ≡ []
  drop_all zero [] h = refl
  drop_all zero (x ∷ xs) h = absurd (omega arith)
  drop_all (suc n) [] h = refl
  drop_all (suc n) (x ∷ xs) h = drop_all n xs (omega arith)

  pub take-append : (xs ys : List A) → take (length xs) (xs ++ ys) ≡ xs
  take-append [] ys = refl
  take-append (x ∷ xs) ys = rw (take-append xs ys)

  pub drop-append : (xs ys : List A) → drop (length xs) (xs ++ ys) ≡ ys
  drop-append [] ys = refl
  drop-append (x ∷ xs) ys = drop-append xs ys

  pub All-append {κ} : (P : A → Type κ) (xs ys : List A) → All P xs → All P ys → All P (xs ++ ys)
  All-append P [] ys hx hy = hy
  All-append P (x ∷ xs) ys (px, hx) hy = (px, All-append P xs ys hx hy)

  pub All-drop {κ} : (P : A → Type κ) (n : ℕ) (xs : List A) → All P xs → All P (drop n xs)
  All-drop P zero xs h = h
  All-drop P (suc n) [] h = tt
  All-drop P (suc n) (x ∷ xs) (_, hs) = All-drop P n xs hs

  pub length-map {κ} : {B : Type κ} (f : A → B) (xs : List A) → length (map f xs) ≡ length xs
  length-map f [] = refl
  length-map f (x ∷ xs) = ap suc (length-map f xs)

  pub drop-drop : (m n : ℕ) (xs : List A) → drop m (drop n xs) ≡ drop (n + m) xs
  drop-drop m zero xs = ap (λ (k : ℕ). drop k xs) (omega arith)
  drop-drop m (suc n) [] = rw (let e : suc n + m ≡ suc (n + m) = omega arith in e) (drop-nil m)
  drop-drop m (suc n) (x ∷ xs) =
      rw (let e : suc n + m ≡ suc (n + m) = omega arith in e) (drop-drop m n xs)

  -- A piece cut off at `n`, as long as `m` or as what is left, is followed by what lies behind it.
  pub take-drop_piece :
      (m n : ℕ) (xs : List A)
      → take (min m (length xs - n)) (drop n xs) ++ drop (n + m) xs ≡ drop n xs
  take-drop_piece m n xs = elim (dec_le m (length xs - n)) [
    | yes p ↦
        let e : min m (length xs - n) ≡ m = omega arith in
        rw (e, ← drop-drop m n xs) (take-append-drop m (drop n xs))
    | no p ↦
        let e : min m (length xs - n) ≡ length xs - n = omega arith in
        rw (e, drop_all (n + m) xs (omega arith), append-nil)
          (take_all (length xs - n) (drop n xs) (omega (arith, length-drop n xs)))
  ]

  pub All-imp {κ μ} :
      (P : A → Type κ) (Q : A → Type μ) (xs : List A) → ((x : A) → P x → Q x) → All P xs → All Q xs
  All-imp P Q [] f h = tt
  All-imp P Q (x ∷ xs) f (p, ps) = (f x p, All-imp P Q xs f ps)

  pub take-append_of : (n : ℕ) (xs ys : List A) → length xs ≡ n → take n (xs ++ ys) ≡ xs
  take-append_of n xs ys e = ap (λ (k : ℕ). take k (xs ++ ys)) (sym e) ∙ take-append xs ys

  pub drop-append_of : (n : ℕ) (xs ys : List A) → length xs ≡ n → drop n (xs ++ ys) ≡ ys
  drop-append_of n xs ys e = ap (λ (k : ℕ). drop k (xs ++ ys)) (sym e) ∙ drop-append xs ys

-- The range `from..from + n`.
abbrev pub range : ℕ → ℕ → List ℕ
range from zero = []
range from (suc n) = from ∷ range (suc from) n

pub length-range : (from n : ℕ) → length (range from n) ≡ n
length-range from zero = omega arith
length-range from (suc n) = ap suc (length-range (suc from) n)

pub All-range {κ} :
    (P : ℕ → Type κ) (from n : ℕ) → ((i : ℕ) → i < n → P (from + i)) → All P (range from n)
All-range P from zero h = tt
All-range P from (suc n) h =
    let first : from + 0 ≡ from = omega arith in
    (
      subst P first (h 0 (omega arith)),
      All-range P (suc from) n (λ i lt.
          let shift : from + suc i ≡ suc from + i = omega arith in
          subst P shift (h (suc i) (omega arith))),
    )

-- `iter().sum::<u64>()`, which wraps.
abbrev pub sum_u64 : List ℕ → ℕ
sum_u64 [] = 0
sum_u64 (n ∷ ns) = (n + sum_u64 ns) % 2 ^ 64

module _ {ℓ} {A : Type ℓ} where
  pub concat-append : (xss yss : List (List A)) → concat (xss ++ yss) ≡ concat xss ++ concat yss
  concat-append [] yss = refl
  concat-append (xs ∷ xss) yss =
      rw (concat-append xss yss) (sym (append_assoc xs (concat xss) (concat yss)))

  -- `enumerate`, from `i` on.
  abbrev pub enumerate : ℕ → List A → List (ℕ × A)
  enumerate i [] = []
  enumerate i (x ∷ xs) = (i, x) ∷ enumerate (suc i) xs

  pub length-enumerate : (i : ℕ) (xs : List A) → length (enumerate i xs) ≡ length xs
  length-enumerate i [] = refl
  length-enumerate i (x ∷ xs) = ap suc (length-enumerate (suc i) xs)

  pub map-enumerate {κ} :
      {B : Type κ} (f : A → B) (i : ℕ) (xs : List A)
      → map (λ (p : ℕ × A). f p.1) (enumerate i xs) ≡ map f xs
  map-enumerate f i [] = refl
  map-enumerate f i (x ∷ xs) = ap (λ ys. f x ∷ ys) (map-enumerate f (suc i) xs)

  pub map_id : (xs : List A) → map (λ (x : A). x) xs ≡ xs
  map_id [] = refl
  map_id (x ∷ xs) = ap (λ ys. x ∷ ys) (map_id xs)

  pub map-append {κ} :
      {B : Type κ} (f : A → B) (xs ys : List A) → map f (xs ++ ys) ≡ map f xs ++ map f ys
  map-append f [] ys = refl
  map-append f (x ∷ xs) ys = ap (λ zs. f x ∷ zs) (map-append f xs ys)

  -- `slice.chunks(size)`, within `fuel` rounds.
  abbrev pub chunks_of : ℕ → ℕ → List A → List (List A)
  chunks_of zero size xs = []
  chunks_of (suc fuel) size [] = []
  chunks_of (suc fuel) size (x ∷ xs) = take size (x ∷ xs) ∷ chunks_of fuel size (drop size (x ∷ xs))

  pub concat-chunks_of :
      (fuel size : ℕ) (xs : List A)
      → length xs ≤ fuel
      → 0 < size
      → concat (chunks_of fuel size xs) ≡ xs
  concat-chunks_of zero size [] h pos = refl
  concat-chunks_of zero size (x ∷ xs) h pos = absurd (omega arith)
  concat-chunks_of (suc fuel) size [] h pos = refl
  concat-chunks_of (suc fuel) size (x ∷ xs) h pos =
      let short : length (drop size (x ∷ xs)) ≤ fuel = omega (arith, length-drop size (x ∷ xs)) in
      rw (concat-chunks_of fuel size (drop size (x ∷ xs)) short pos)
        (take-append-drop size (x ∷ xs))

  pub chunks_of-All :
      (fuel size : ℕ) (xs : List A)
      → 0 < size
      → All (λ (b : List A). (0 < length b) × (length b ≤ size)) (chunks_of fuel size xs)
  chunks_of-All zero size xs pos = tt
  chunks_of-All (suc fuel) size [] pos = tt
  chunks_of-All (suc fuel) size (x ∷ xs) pos =
      let len = length-take size (x ∷ xs) in
      ((omega (arith, len), omega (arith, len)), chunks_of-All fuel size (drop size (x ∷ xs)) pos)
