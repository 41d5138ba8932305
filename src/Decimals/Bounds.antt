-- ===== src/Decimals/Bounds.antt =====
-- Lemmas on `fix`: coefficients between two whole numbers.
use native.Mathlib.Nat.{
  pow-suc, one-le-pow, mul_assoc, mul-mod_left, mul-div_cancel, mul-le-mul_right,
}
use auto_trading_v.Prelude.{
  ℕ, zero, suc, ◌+◌, ◌-◌, ◌*◌, ◌/◌, ◌%◌, ◌^◌, ◌≤◌, ◌<◌, ◌≡◌, refl, ap, sym, ◌∙◌, inl, inr,
  Bool-cases, arith, ltb, le→leb, ltb→lt,
}
use auto_trading_v.Prelude.Int.{pos}
use auto_trading_v.Decimals.{Decimal, excess, half_even, nearest, fix}
use auto_trading_v.Decimals.Rounding.{half_even_mono}

pub ten_pow_positive : (k : ℕ) → 1 ≤ 10 ^ k
ten_pow_positive k = one-le-pow k 10 (omega arith)

ten_pow_step : (a b : ℕ) → 10 ^ (a + suc b) ≡ 10 ^ (a + b) * 10
ten_pow_step a b = let e : a + suc b ≡ suc (a + b) = omega arith in rw e (pow-suc 10 (a + b))

ten_pow_zero : (a : ℕ) → 10 ^ (a + 0) ≡ 10 ^ a
ten_pow_zero a = let e : a + 0 ≡ a = omega arith in rw e refl

pub ten_pow_add : (a b : ℕ) → 10 ^ (a + b) ≡ 10 ^ a * 10 ^ b
ten_pow_add a zero = omega (arith, ten_pow_zero a)
ten_pow_add a (suc b) =
    rw (ten_pow_step a b, pow-suc 10 b, ten_pow_add a b) (mul_assoc (10 ^ a) (10 ^ b) 10)

-- Few digits beyond the precision, of a number that is not too long.
pub excess-le : (fuel prec n j : ℕ) → n < 10 ^ (prec + j) → excess fuel prec n ≤ j
unfolding excess
excess-le zero prec n j h = omega arith
excess-le (suc fuel) prec n zero h = ground (arith, ten_pow_zero prec)
excess-le (suc fuel) prec n (suc j) h =
    let le = excess-le fuel prec (n / 10) j (omega (arith, ten_pow_step prec j)) in ground arith

-- As many digits are kept as the precision says.
pub le-of_excess : (fuel prec n k : ℕ) → k < excess fuel prec n → 10 ^ (prec + k) ≤ n
unfolding excess
le-of_excess zero prec n k h = absurd (omega arith)
le-of_excess (suc fuel) prec n zero h = ground (arith, ten_pow_zero prec)
le-of_excess (suc fuel) prec n (suc k) h =
    let le = le-of_excess fuel prec (n / 10) k (ground arith) in omega (arith, ten_pow_step prec k)

-- The fuel is enough: what is kept has no more digits than the precision.
pub lt-of_excess : (fuel prec n : ℕ) → n ≤ fuel → n < 10 ^ (prec + excess fuel prec n)
unfolding excess
lt-of_excess zero prec n h = omega (arith, ten_pow_positive (prec + 0))
lt-of_excess (suc fuel) prec n h = elim (Bool-cases (ltb n (10 ^ prec))) [
  | inl short ↦ rw short (omega (arith, ten_pow_zero prec, ltb→lt n (10 ^ prec) short))
  | inr long ↦
      let positive = ten_pow_positive prec in
      let below = lt-of_excess fuel prec (n / 10) (ground arith) in
      rw long (omega (arith, next fuel prec n))
]
  where
    next :
        (fuel prec n : ℕ)
        → 10 ^ (prec + (excess fuel prec (n / 10) + 1))
          ≡ 10 ^ (prec + excess fuel prec (n / 10)) * 10
    next fuel prec n =
        let e : prec + (excess fuel prec (n / 10) + 1) ≡ suc (prec + excess fuel prec (n / 10)) =
          omega arith in
        rw e (pow-suc 10 _)

pub half_even-mul : (a d : ℕ) → 1 ≤ d → half_even (a * d) d ≡ a
unfolding half_even nearest
half_even-mul a d h =
    let q : a * d / d ≡ a = mul-div_cancel a (omega arith) in
    let r : a * d % d ≡ 0 = mul-mod_left a d in rw (q, r) (ground arith)

-- How many digits of a coefficient are rounded away.
abbrev pub cut : ℕ → ℕ → ℕ
cut prec n = excess n prec n

pub fix-positive :
    (prec n s : ℕ)
    → cut prec n ≤ s
    → fix prec (pos n) s
      ≡ record { coefficient = pos (half_even n (10 ^ cut prec n)); scale = s - cut prec n }
unfolding fix
fix-positive prec n s h = let e : n + 0 ≡ n = omega arith in rw (e, le→leb (cut prec n) s h) refl

pub pow_split : (s k : ℕ) → k ≤ s → 10 ^ s ≡ 10 ^ (s - k) * 10 ^ k
pow_split s k h =
    let e : s ≡ (s - k) + k = omega arith in ap (λ t. 10 ^ t) e ∙ ten_pow_add (s - k) k

-- A whole number below the coefficient stays below, and one above stays above.
pub rounded-ge : (lo n s k : ℕ) → k ≤ s → lo * 10 ^ s ≤ n → lo * 10 ^ (s - k) ≤ half_even n (10 ^ k)
rounded-ge lo n s k h le =
    let e : lo * 10 ^ s ≡ lo * 10 ^ (s - k) * 10 ^ k =
      rw (pow_split s k h) (sym (mul_assoc lo _ _)) in
    let m =
      half_even_mono (lo * 10 ^ (s - k) * 10 ^ k) n (10 ^ k) (ten_pow_positive k) (rw (← e) le) in
    rw (← half_even-mul (lo * 10 ^ (s - k)) (10 ^ k) (ten_pow_positive k)) m

pub rounded-le : (hi n s k : ℕ) → k ≤ s → n ≤ hi * 10 ^ s → half_even n (10 ^ k) ≤ hi * 10 ^ (s - k)
rounded-le hi n s k h le =
    let e : hi * 10 ^ s ≡ hi * 10 ^ (s - k) * 10 ^ k =
      rw (pow_split s k h) (sym (mul_assoc hi _ _)) in
    let m =
      half_even_mono n (hi * 10 ^ (s - k) * 10 ^ k) (10 ^ k) (ten_pow_positive k) (rw (← e) le) in
    rw (half_even-mul (hi * 10 ^ (s - k)) (10 ^ k) (ten_pow_positive k)) at m

pub cut-le : (prec n s hi : ℕ) → hi < 10 ^ prec → n ≤ hi * 10 ^ s → cut prec n ≤ s
cut-le prec n s hi short le = excess-le n prec n s (
    omega (
      arith,
      ten_pow_add prec s,
      ten_pow_positive s,
      mul-le-mul_right (10 ^ s) (let h : hi + 1 ≤ 10 ^ prec = omega arith in h),
    ))

-- A number from 0 to a whole number.
abbrev pub AtMost : ℕ → Decimal → Type 0
AtMost hi a = (m : ℕ) × (a.coefficient ≡ pos m) × (m ≤ hi * 10 ^ a.scale)

-- Rounding does not take a number past a whole number that has few enough digits.
pub fix-AtMost :
    (prec n s hi : ℕ) → hi < 10 ^ prec → n ≤ hi * 10 ^ s → AtMost hi (fix prec (pos n) s)
fix-AtMost prec n s hi short le =
    let k = cut-le prec n s hi short le in
    rw (fix-positive prec n s k)
      (half_even n (10 ^ cut prec n), refl, rounded-le hi n s (cut prec n) k le)
