-- ===== src/Base/Decimal.antt =====
-- `to_string` and `str::parse` of unsigned integers, as the standard library defines them.
use Prim.Native.Nat.{ℕ, zero, suc, ◌+◌, ◌-◌, ◌*◌, ◌/◌, ◌%◌, ◌^◌, ◌≤◌, ◌<◌}
use mathlib.Core.Path.{◌≡◌, refl, ap, ◌∙◌}
use mathlib.Core.Logic.{◌≢◌}
use mathlib.Core.Bool.{◌||◌}
use mathlib.Core.List.{[], ◌∷◌}
use native.Mathlib.Nat.{pow-suc}
use native.Mathlib.Omega.{arith}
use rust_filen.Base.Tests.{ltb, ◌==◌, if◌then◌else◌}
use rust_filen.Base.Lists.{All}
use rust_filen.Base.Results.{Result, ok, err, map_ok}
use rust_filen.Base.Int.{ℤ, pos, negate}
use rust_filen.Base.Text.{Bytes, codes}

-- `std::num::ParseIntError`, by its `IntErrorKind`.
pub data ParseIntError : Type 0 where
  empty invalid_digit pos_overflow neg_overflow : ParseIntError

-- The digits of `n` in front of `out`; twenty rounds serve every `u64`.
pub emit : ℕ → ℕ → Bytes → Bytes
emit zero n out = out
emit (suc fuel) n out =
    let rest = emit fuel (n / 10) ((b'0' + n % 10) ∷ out) in
    if ltb n 10 then (b'0' + n) ∷ out else rest

unfoldable pub decimal : ℕ → Bytes
unfolding emit
decimal n = emit 20 n []

-- The digits of `s` behind the value `n`, for a type whose largest value is `top`.
pub scan : ℕ → Bytes → ℕ → Result ℕ ParseIntError
scan top [] n = ok n
scan top (c ∷ s) n =
    let rest = scan top s (n * 10 + (c - b'0')) in
    if ltb c b'0' || ltb b'9' c
    then err invalid_digit
    else if ltb top (n * 10 + (c - b'0'))
    then err pos_overflow
    else rest

-- `str::parse::<uN>`: one leading `+` is accepted.
unfoldable pub parse_unsigned : ℕ → Bytes → Result ℕ ParseIntError
unfolding scan
parse_unsigned top [] = err empty
parse_unsigned top (c ∷ []) = if c == b'+' then err invalid_digit else scan top (c ∷ []) 0
parse_unsigned top (c ∷ d ∷ s) = if c == b'+' then scan top (d ∷ s) 0 else scan top (c ∷ d ∷ s) 0

-- The value of a signed text behind its `-`.
abbrev negated : Result ℕ ParseIntError → Result ℤ ParseIntError
negated (ok n) = ok (negate n)
negated (err pos_overflow) = err neg_overflow
negated (err e) = err e

-- `str::parse::<iN>`, with the largest value `top`.
unfoldable pub parse_signed : ℕ → Bytes → Result ℤ ParseIntError
unfolding scan parse_unsigned
parse_signed top [] = err empty
parse_signed top (c ∷ []) =
    if c == b'-' then err invalid_digit else map_ok pos (parse_unsigned top (c ∷ []))
parse_signed top (c ∷ d ∷ s) =
    if c == b'-'
    then negated (scan (top + 1) (d ∷ s) 0)
    else map_ok pos (parse_unsigned top (c ∷ d ∷ s))

abbrev pub i32_max : ℕ
i32_max = 2 ^ 31 - 1

abbrev pub u32_max : ℕ
u32_max = 2 ^ 32 - 1

abbrev pub u64_max : ℕ
u64_max = 2 ^ 64 - 1

decimal_12 : decimal 120 ≡ codes "120"
unfolding decimal
decimal_12 = refl

parse_12 : parse_unsigned u32_max (codes "+120") ≡ ok 120
unfolding parse_unsigned
parse_12 = refl

abbrev pub IsDigit : ℕ → Type 0
IsDigit c = (b'0' ≤ c) × (c ≤ b'9')

-- Reading the digits of `n` is the same as starting behind the value `n`.
scan-emit :
    (top fuel n : ℕ) (out : Bytes)
    → n ≤ top
    → n < 10 ^ fuel
    → scan top (emit fuel n out) 0 ≡ scan top out n
unfolding scan emit
scan-emit top zero n out h lt = ap (scan top out) (omega arith)
scan-emit top (suc fuel) n out h lt =
    ground (arith, scan-emit top fuel (n / 10) ((b'0' + n % 10) ∷ out), pow-suc 10 fuel)

emit-All : (fuel n : ℕ) (out : Bytes) → All IsDigit out → All IsDigit (emit fuel n out)
unfolding emit
emit-All zero n out h = h
emit-All (suc fuel) n out h = ground (arith, emit-All fuel (n / 10) ((b'0' + n % 10) ∷ out))

emit-ne-nil : (fuel n : ℕ) (out : Bytes) → out ≢ [] → emit fuel n out ≢ []
unfolding emit
emit-ne-nil zero n out h = h
emit-ne-nil (suc fuel) n out h = ground (arith, emit-ne-nil fuel (n / 10) ((b'0' + n % 10) ∷ out))

pub decimal-All : (n : ℕ) → All IsDigit (decimal n)
unfolding decimal
decimal-All n = emit-All 20 n [] tt

pub decimal-ne-nil : (n : ℕ) → decimal n ≢ []
unfolding decimal
decimal-ne-nil n = ground (arith, emit-ne-nil 19 (n / 10) ((b'0' + n % 10) ∷ []))

parse_unsigned-scan :
    (top : ℕ) (s : Bytes) → s ≢ [] → All IsDigit s → parse_unsigned top s ≡ scan top s 0
unfolding parse_unsigned
parse_unsigned-scan top [] h d = absurd (h refl)
parse_unsigned-scan top (c ∷ []) h d = ground arith
parse_unsigned-scan top (c ∷ e ∷ s) h d = ground arith

pub parse_unsigned-decimal :
    (top n : ℕ) → n ≤ top → n < 10 ^ 20 → parse_unsigned top (decimal n) ≡ ok n
parse_unsigned-decimal top n h lt =
    parse_unsigned-scan top (decimal n) (decimal-ne-nil n) (decimal-All n)
    ∙ (unfold decimal scan in scan-emit top 20 n [] h lt)
