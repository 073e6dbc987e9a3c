-- ===== src/Base/Utf8.antt =====
-- `String::from_utf8` and `char` as the standard library defines them.
use rust_filen.Base.Lists.{All}
use rust_filen.Base.Tests.{ltb, leb, if◌then◌else◌, ltb→lt, Bool-cases, Option-cases}
use rust_filen.Base.Text.{Bytes}
use Prim.Native.Nat.{ℕ, ◌+◌, ◌/◌, ◌%◌, ◌<◌, ◌≤◌}
use mathlib.Core.Path.{◌≡◌, refl}
use mathlib.Core.Logic.{inl, inr}
use mathlib.Core.Bool.{Bool, true, false, ◌&&◌}
use mathlib.Core.List.{List, [], ◌∷◌}
use mathlib.Core.Option.{Option, none, some}
use native.Mathlib.Omega.{arith}

-- The ranges of the bytes that a leading byte asks for, `none` for a byte that leads nothing.
abbrev tails : ℕ → Option (List (ℕ × ℕ))
tails c =
    let more : ℕ × ℕ = (0x80, 0xbf) in
    if ltb c 0x80
    then some []
    else if ltb c 0xc2
    then none
    else if ltb c 0xe0
    then some (more ∷ [])
    else if ltb c 0xe1
    then some ((0xa0, 0xbf) ∷ more ∷ [])
    else if ltb c 0xed
    then some (more ∷ more ∷ [])
    else if ltb c 0xee
    then some ((0x80, 0x9f) ∷ more ∷ [])
    else if ltb c 0xf0
    then some (more ∷ more ∷ [])
    else if ltb c 0xf1
    then some ((0x90, 0xbf) ∷ more ∷ more ∷ [])
    else if ltb c 0xf4
    then some (more ∷ more ∷ more ∷ [])
    else if ltb c 0xf5
    then some ((0x80, 0x8f) ∷ more ∷ more ∷ [])
    else none

-- Whether the bytes are UTF-8 behind a character that still asks for the given ranges.
utf8_after : List (ℕ × ℕ) → Bytes → Bool
utf8_after [] [] = true
utf8_after (_ ∷ _) [] = false
utf8_after [] (c ∷ s) = elim (tails c) [ none ↦ false | some rs ↦ utf8_after rs s ]
utf8_after ((lo, hi) ∷ rs) (c ∷ s) = leb lo c && leb c hi && utf8_after rs s

unfoldable pub is_utf8 : Bytes → Bool
unfolding utf8_after
is_utf8 s = utf8_after [] s

pub IsAscii-is_utf8 : (s : Bytes) → All (λ c. c < 128) s → is_utf8 s ≡ true
unfolding is_utf8
IsAscii-is_utf8 [] h = refl
IsAscii-is_utf8 (c ∷ s) (hc, hs) = ground (arith, IsAscii-is_utf8 s hs)

-- The UTF-8 bytes of the character with the code of one byte.
abbrev pub encode_char : ℕ → Bytes
encode_char c = if ltb c 0x80 then c ∷ [] else (0xc0 + c / 64) ∷ (0x80 + c % 64) ∷ []

-- A leading byte and the ranges that it asks for are bytes.
abbrev Bounded : ℕ → Option (List (ℕ × ℕ)) → Type 0
Bounded c none = Unit
Bounded c (some rs) = (c < 256) × All (λ (r : ℕ × ℕ). r.1 < 256) rs

upto :
    (c k : ℕ) (o y : Option (List (ℕ × ℕ)))
    → (c < k → Bounded c o)
    → Bounded c y
    → Bounded c (if ltb c k then o else y)
upto c k o y ho hy = elim (Bool-cases (ltb c k)) [
  | inl e ↦ rw e (ho (ltb→lt c k e))
  | inr e ↦ rw e hy
]

tails-Bounded : (c : ℕ) → Bounded c (tails c)
tails-Bounded c =
    upto c 0x80 _ _ (λ h. (omega arith, tt))
      (upto c 0xc2 _ _ (λ h. tt)
        (upto c 0xe0 _ _ (λ h. (omega arith, (omega arith, tt)))
          (upto c 0xe1 _ _ (λ h. (omega arith, (omega arith, (omega arith, tt))))
            (upto c 0xed _ _ (λ h. (omega arith, (omega arith, (omega arith, tt))))
              (upto c 0xee _ _ (λ h. (omega arith, (omega arith, (omega arith, tt))))
                (upto c 0xf0 _ _ (λ h. (omega arith, (omega arith, (omega arith, tt))))
                  (upto c 0xf1 _ _
                    (λ h. (omega arith, (omega arith, (omega arith, (omega arith, tt)))))
                    (upto c 0xf4 _ _
                      (λ h. (omega arith, (omega arith, (omega arith, (omega arith, tt)))))
                      (upto c 0xf5 _ _
                        (λ h. (omega arith, (omega arith, (omega arith, (omega arith, tt)))))
                        (tt))))))))))

utf8_after-IsBytes :
    (rs : List (ℕ × ℕ)) (s : Bytes)
    → All (λ (r : ℕ × ℕ). r.1 < 256) rs
    → utf8_after rs s ≡ true
    → All (λ c. c < 256) s
unfolding utf8_after
utf8_after-IsBytes [] [] b h = tt
utf8_after-IsBytes (_ ∷ _) [] b h = absurd (cc h)
utf8_after-IsBytes [] (c ∷ s) b h = elim (Option-cases (tails c)) [
  | inl e ↦ absurd (cc (rw (e, utf8_after) at h))
  | inr (rs, e) ↦
      let bound : Bounded c (some rs) = rw e at (tails-Bounded c) in
      (bound.0, utf8_after-IsBytes rs s bound.1 (rw (e, utf8_after) at h))
]
utf8_after-IsBytes ((lo, hi) ∷ rs) (c ∷ s) (b, bs) h =
    let rest : utf8_after rs s ≡ true = ground arith in
    let le : c ≤ hi = ground arith in (omega arith, utf8_after-IsBytes rs s bs rest)

-- UTF-8 text is made of bytes.
pub is_utf8-IsBytes : (s : Bytes) → is_utf8 s ≡ true → All (λ c. c < 256) s
unfolding is_utf8
is_utf8-IsBytes s h = utf8_after-IsBytes [] s tt h
