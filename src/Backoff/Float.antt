-- ===== src/Backoff/Float.antt =====
-- The `f64` arithmetic of src/limited_exponential.rs. Its operands are `u64` and `u32` values and their
-- products, so every `f64` that occurs is a natural number below 2^97: rounding keeps the 53 leading
-- bits, to nearest, ties to even.
use native.Mathlib.Nat.{pow-suc, le_trans, le-div_iff_mul-le}
use rust_filen.Base.{
  ℕ, zero, suc, ◌+◌, ◌*◌, ◌/◌, ◌%◌, ◌^◌, ◌≤◌, ◌<◌, min, ◌≡◌, arith, ltb, ◌==◌, if◌then◌else◌,
  le→ltb, lt→ltb,
}
use rust_filen.Base.Decimal.{u64_max}

-- How many bits of `n` lie behind its 53 leading ones, within `fuel` bits.
exponent : ℕ → ℕ → ℕ
exponent zero n = 0
exponent (suc fuel) n = let rest = suc (exponent fuel (n / 2)) in if ltb n (2 ^ 53) then 0 else rest

-- The significand `q` or its successor, whichever is nearer by the remainder `r` of `size`.
nearest : ℕ → ℕ → ℕ → ℕ
nearest q r size =
    if ltb (2 * r) size
    then q
    else if ltb size (2 * r)
    then q + 1
    else if q % 2 == 0
    then q
    else q + 1

round_at : ℕ → ℕ → ℕ
unfolding nearest
round_at n size = nearest (n / size) (n % size) size * size

-- The value of the `f64` nearest to `n`.
round : ℕ → ℕ
round n = if ltb n (2 ^ 53) then n else round_at n (2 ^ exponent 128 n)

-- `n as f64`
unfoldable pub as_f64 : ℕ → ℕ
unfolding round exponent round_at
as_f64 n = round n

-- `x * y` on `f64`
unfoldable pub mul_f64 : ℕ → ℕ → ℕ
unfolding round exponent round_at
mul_f64 x y = round (x * y)

-- `x as u64`, which saturates.
abbrev pub as_u64 : ℕ → ℕ
as_u64 x = min x u64_max

round_exact : (n : ℕ) → n < 2 ^ 53 → round n ≡ n
unfolding round
round_exact n h = rw (lt→ltb n (2 ^ 53) h)

pow_pos : (n : ℕ) → 0 < 2 ^ n
pow_pos zero = omega arith
pow_pos (suc n) = omega (arith, pow_pos n, pow-suc 2 n)

exponent-le : (fuel n : ℕ) → 2 ^ 52 ≤ n → 2 ^ 52 * 2 ^ exponent fuel n ≤ n
unfolding exponent
exponent-le zero n h = omega arith
exponent-le (suc fuel) n h =
    ground (arith, exponent-le fuel (n / 2), pow-suc 2 (exponent fuel (n / 2)))

le-nearest : (q r size : ℕ) → q ≤ nearest q r size
unfolding nearest
le-nearest q r size = ground arith

exponent_pos : (n : ℕ) → 2 ^ 53 ≤ n → 2 ≤ 2 ^ exponent 128 n
unfolding exponent
exponent_pos n h =
    rw (le→ltb n (2 ^ 53) h, exponent)
      (omega (arith, pow-suc 2 (exponent 127 (n / 2)), pow_pos (exponent 127 (n / 2))))

le-round_at : (n size : ℕ) → 0 < size → 2 ^ 52 * size ≤ n → 2 ^ 52 * size ≤ round_at n size
unfolding round_at
le-round_at n size pos h =
    let big : 2 ^ 52 ≤ nearest (n / size) (n % size) size =
      le_trans ((le-div_iff_mul-le pos).1 h) (le-nearest (n / size) (n % size) size) in
    grind arith

-- A value of 54 bits or more is rounded to one of 54 bits or more.
round_large : (n : ℕ) → 2 ^ 53 ≤ n → 2 ^ 53 ≤ round n
unfolding round
round_large n h =
    rw (le→ltb n (2 ^ 53) h)
      (omega (arith, le-round_at n (2 ^ exponent 128 n), exponent-le 128 n, exponent_pos n h))

pub as_f64_exact : (n : ℕ) → n < 2 ^ 53 → as_f64 n ≡ n
as_f64_exact n h = unfold as_f64 in round_exact n h

pub mul_f64_exact : (x y : ℕ) → x * y < 2 ^ 53 → mul_f64 x y ≡ x * y
mul_f64_exact x y h = unfold mul_f64 in round_exact (x * y) h

pub mul_f64_large : (x y : ℕ) → 2 ^ 53 ≤ x * y → 2 ^ 53 ≤ mul_f64 x y
mul_f64_large x y h = unfold mul_f64 in round_large (x * y) h
