-- ===== src/Decimals.antt =====
-- The `Decimal` values of Python's decimal module, as the sources use them: finite numbers, with
-- the context's precision and ROUND_HALF_EVEN applied after each operation.
pub mod Rounding
pub mod Bounds
pub mod Intervals
use auto_trading_v.Prelude.{
  ℕ, zero, suc, ◌+◌, ◌-◌, ◌*◌, ◌/◌, ◌%◌, ◌^◌, ◌≤◌, ◌≡◌, refl, Bool, Option, none, some, ltb, leb,
  ◌==◌, if◌then◌else◌, ◌&&◌, not,
}
use auto_trading_v.Prelude.Int.{
  ℤ, pos, negsuc, pos_part, neg_part, magnitude, with_sign, ◌+ℤ◌, ◌-ℤ◌, ◌*ℤ◌, leb_ℤ, ltb_ℤ, eqb_ℤ,
}

-- The number coefficient / 10 ^ scale. Two such records can stand for one number, as Decimal("1.0")
-- and Decimal("1.00") do: the tests below compare numbers.
pub record Decimal : Type 0 where
  pub coefficient : ℤ
  pub scale : ℕ

-- Decimal(n) for an integer n that is not negative.
abbrev pub of_ℕ : ℕ → Decimal
of_ℕ n = record { coefficient = pos n; scale = 0 }

-- The coefficient of a number on a finer scale.
abbrev pub rescaled : Decimal → ℕ → ℤ
rescaled a s = a.coefficient *ℤ pos (10 ^ (s - a.scale))

abbrev common_scale : Decimal → Decimal → ℕ
common_scale a b = if leb a.scale b.scale then b.scale else a.scale

unfoldable pub eqb : Decimal → Decimal → Bool
unfolding ◌*ℤ◌
eqb a b = eqb_ℤ (rescaled a (common_scale a b)) (rescaled b (common_scale a b))

-- a <= b
unfoldable pub le_dec : Decimal → Decimal → Bool
unfolding ◌*ℤ◌
le_dec a b = leb_ℤ (rescaled a (common_scale a b)) (rescaled b (common_scale a b))

-- a < b
abbrev pub lt_dec : Decimal → Decimal → Bool
lt_dec a b = not (le_dec b a)

-- From a quotient and a remainder below d: the nearer integer, and at a tie the even one.
nearest : ℕ → ℕ → ℕ → ℕ
nearest q r d =
    if ltb (2 * r) d then q else if ltb d (2 * r) then q + 1 else if q % 2 == 0 then q else q + 1

-- n / d to the nearest integer.
unfoldable pub half_even : ℕ → ℕ → ℕ
unfolding nearest
half_even n d = nearest (n / d) (n % d) d

-- How many of a coefficient's last digits stand beyond the precision. The fuel is the number of
-- digits to look at, and the coefficient's own value is enough of it.
unfoldable pub excess : ℕ → ℕ → ℕ → ℕ
excess zero prec n = 0
excess (suc fuel) prec n =
    let rest = excess fuel prec (n / 10) + 1 in if ltb n (10 ^ prec) then 0 else rest

-- Rounds a coefficient on a scale to the precision. Where all decimals and more are rounded away,
-- the zeros stand before the point.
unfoldable pub fix : ℕ → ℤ → ℕ → Decimal
unfolding excess half_even
fix prec c s =
    let k = excess (magnitude c) prec (magnitude c) in
    let m = half_even (magnitude c) (10 ^ k) in
    if leb k s
    then record { coefficient = with_sign c m; scale = s - k }
    else record { coefficient = with_sign c (m * 10 ^ (k - s)); scale = 0 }

unfoldable pub add : ℕ → Decimal → Decimal → Decimal
unfolding fix ◌+ℤ◌ ◌*ℤ◌
add prec a b = let s = common_scale a b in fix prec (rescaled a s +ℤ rescaled b s) s

unfoldable pub sub : ℕ → Decimal → Decimal → Decimal
unfolding fix ◌-ℤ◌ ◌*ℤ◌
sub prec a b = let s = common_scale a b in fix prec (rescaled a s -ℤ rescaled b s) s

unfoldable pub mul : ℕ → Decimal → Decimal → Decimal
unfolding fix ◌*ℤ◌
mul prec a b = fix prec (a.coefficient *ℤ b.coefficient) (a.scale + b.scale)

-- An inexact quotient gets a last digit that is neither 0 nor 5, so that it is no tie.
abbrev pub sticky : ℕ → ℕ → ℕ
sticky q r = if r == 0 then q else if q % 5 == 0 then q + 1 else q

-- a / b for a divisor that is positive: more digits than the precision, and the rest in the last.
unfoldable pub div : ℕ → Decimal → Decimal → Decimal
unfolding fix excess ◌*ℤ◌
div prec a b =
    let d = magnitude b.coefficient in
    let shift = excess d 0 d + prec + 1 + b.scale in
    let n = magnitude a.coefficient * 10 ^ shift in
    fix prec (with_sign a.coefficient (sticky (n / d) (n % d))) (a.scale + shift - b.scale)

-- value.quantize(10 ^ -scale): none for InvalidOperation, where the result has more digits than
-- the context's precision.
unfoldable pub quantize : ℕ → ℕ → Decimal → Option Decimal
unfolding half_even
quantize prec s a =
    let m = magnitude a.coefficient in
    let q = if leb a.scale s then m * 10 ^ (s - a.scale) else half_even m (10 ^ (a.scale - s)) in
    if ltb q (10 ^ prec)
    then some (record { coefficient = with_sign a.coefficient q; scale = s })
    else none

-- int(value.to_integral_value(rounding=ROUND_FLOOR)) for a number that is not negative.
unfoldable pub floor : Decimal → ℕ
floor a = pos_part a.coefficient / 10 ^ a.scale

unfoldable pub is_positive : Decimal → Bool
is_positive a = ltb_ℤ (pos 0) a.coefficient

unfoldable pub is_zero : Decimal → Bool
is_zero a = magnitude a.coefficient == 0

third : div 5 (of_ℕ 1) (of_ℕ 3) ≡ record { coefficient = pos 33333; scale = 5 }
unfolding div
third = refl

halves :
    sub 3 (of_ℕ 2) (record { coefficient = pos 12345; scale = 4 })
    ≡ record { coefficient = pos 766; scale = 3 }
unfolding sub
halves = refl
