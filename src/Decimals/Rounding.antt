-- ===== src/Decimals/Rounding.antt =====
-- Lemmas on `half_even`: distances and order.
use native.Mathlib.Decide.{dec_le, ℕ_discrete}
use native.Mathlib.Nat.{mul-le-mul_right}
use auto_trading_v.Prelude.{ℕ, suc, ◌+◌, ◌*◌, ◌/◌, ◌%◌, ◌≤◌, ◌<◌, ◌≡◌, ◌⊎◌, inl, inr, ap, arith}
use auto_trading_v.Decimals.{nearest, half_even}

-- It rounds down or up, and each only where that is no farther.
nearest_cases :
    (q r d : ℕ) → (nearest q r d ≡ q) × (2 * r ≤ d) ⊎ (nearest q r d ≡ suc q) × (d ≤ 2 * r)
unfolding nearest
nearest_cases q r d = ground arith

nearest_bounds :
    (q r d : ℕ)
    → r < d
    → (2 * (q * d + r) ≤ 2 * (nearest q r d * d) + d)
      × (2 * (nearest q r d * d) ≤ 2 * (q * d + r) + d)
nearest_bounds q r d h = elim (nearest_cases q r d) [
  | inl (down, le) ↦ rw down (omega arith)
  | inr (up, le) ↦ rw up (omega arith)
]

nearest_mono_remainder : (q r s d : ℕ) → r ≤ s → nearest q r d ≤ nearest q s d
unfolding nearest
nearest_mono_remainder q r s d le = ground arith

quotient_le : (q r p s d : ℕ) → s < d → q * d + r ≤ p * d + s → q ≤ p
quotient_le q r p s d k le = elim (dec_le q p) [
  | yes h ↦ h
  | no h ↦ absurd (omega (arith, mul-le-mul_right d (one_more h)))
]
  where
    one_more : ¬ (q ≤ p) → suc p ≤ q
    one_more h = omega arith

nearest_mono : (q r p s d : ℕ) → s < d → q * d + r ≤ p * d + s → nearest q r d ≤ nearest p s d
nearest_mono q r p s d k le = elim (ℕ_discrete q p) [
  | yes e ↦ rw e (nearest_mono_remainder p r s d (remainder_le e))
  | no e ↦ omega (arith, quotient_le q r p s d k le, nearest_cases q r d, nearest_cases p s d)
]
  where
    remainder_le : q ≡ p → r ≤ s
    remainder_le e = omega (arith, ap (λ (t : ℕ). t * d) e)

split : (n d : ℕ) → 0 < d → (n / d) * d + n % d ≡ n
split n d h = omega arith

-- Rounding moves by half a unit at most.
pub half_even_bounds :
    (n d : ℕ)
    → 0 < d
    → (2 * n ≤ 2 * (half_even n d * d) + d) × (2 * (half_even n d * d) ≤ 2 * n + d)
unfolding half_even
half_even_bounds n d h = omega (arith, nearest_bounds (n / d) (n % d) d (omega arith), split n d h)

pub half_even_mono : (n m d : ℕ) → 0 < d → n ≤ m → half_even n d ≤ half_even m d
unfolding half_even
half_even_mono n m d h le =
    nearest_mono (n / d) (n % d) (m / d) (m % d) d (omega arith)
      (omega (arith, split n d h, split m d h))
