-- ===== src/TradeIntents/Sizing.antt =====
-- plan_fixed_notional_quantity (domain/trade_intents/sizing.py): the rounded quotient and the quantity.
use native.Mathlib.Nat.{
  mul-le-mul_right, mul_assoc, mul_comm, div-le_self, div-mul-le_self, lt-div-mul-add,
  le-div_iff_mul-le, div-eq_of_lt-le, lt_of_mul-lt-mul_right,
}
use auto_trading_v.Prelude.{
  ℕ, zero, suc, ◌+◌, ◌-◌, ◌*◌, ◌/◌, ◌%◌, ◌^◌, ◌≤◌, ◌<◌, ◌≡◌, refl, ap, sym, ◌∙◌, inl, inr, ◌⊎◌,
  arith, ltb, leb, true, false, not, length, codes_eq, codes_eq→eq, ok, some, [], ◌∷◌, ◌==◌,
  if◌then◌else◌,
}
use auto_trading_v.Prelude.Int.{pos, ◌*ℤ◌}
use auto_trading_v.Text.{Text}
use auto_trading_v.PaperOrders.{code_ok}
use auto_trading_v.TradeIntents.{
  fixed_usd_notional, FixedNotionalRiskPolicy, new_policy, EntrySizingResult, approved,
  fixed_notional_approved, rejected_sizing, new_sizing, plan_fixed_notional_quantity,
  requested_value,
}
use auto_trading_v.Decimals.{
  lt_dec, le_dec, mul, Decimal, of_ℕ, excess, half_even, fix, sticky, div, floor,
}
use auto_trading_v.Decimals.Rounding.{half_even_bounds}
use auto_trading_v.Decimals.Bounds.{
  half_even-mul, excess-le, ten_pow_positive, ten_pow_add, cut, cut-le, le-of_excess, pow_split,
  lt-of_excess, fix-positive, rounded-ge,
}

sticky_bounds : (q r : ℕ) → (q ≤ sticky q r) × (sticky q r ≤ q + 1)
sticky_bounds q r = ground arith

swap_last : (x y z : ℕ) → x * y * z ≡ x * z * y
swap_last x y z = mul_assoc x y z ∙ ap (λ t. x * t) (mul_comm y z) ∙ sym (mul_assoc x z y)

zero_or_more : (n : ℕ) → (n ≡ 0) ⊎ ((k : ℕ) × (n ≡ suc k))
zero_or_more zero = inl refl
zero_or_more (suc k) = inr (k, refl)

digits_38 : (k : ℕ) → 10 ^ (38 + k) ≡ 10 ^ 37 * 10 ^ suc k
digits_38 k =
    let e : 38 + k ≡ 37 + suc k = omega arith in ap (λ t. 10 ^ t) e ∙ ten_pow_add 37 (suc k)

-- A, D and S for the amount times the price's scale, the price's coefficient, and the scale of the
-- quotient, c for the quotient's coefficient.
module _ (a d s c : ℕ) (positive : 1 ≤ d) (small : a ≤ 10 ^ 21) (fine : d * 10 ^ 39 ≤ 10 ^ s)
    (near : (a * 10 ^ s) / d ≤ c) (next : c ≤ (a * 10 ^ s) / d + 1) where
  quotient_le : (a * 10 ^ s) / d ≤ a * 10 ^ s
  quotient_le = div-le_self (a * 10 ^ s) d

  short : cut 38 c ≤ s
  short = cut-le 38 c s (a + 1) (omega arith) (omega (arith, quotient_le, ten_pow_positive s))

  whole : a / d * 10 ^ s ≤ a * 10 ^ s / d
  whole =
      (le-div_iff_mul-le positive).1 (
        omega
          (arith, swap_last (a / d) (10 ^ s) d, mul-le-mul_right (10 ^ s) (div-mul-le_self a d)))

  lower : (a / d) * 10 ^ (s - cut 38 c) ≤ half_even c (10 ^ cut 38 c)
  lower = rounded-ge (a / d) c s (cut 38 c) short (omega (arith, near, whole))

  room : a * 10 ^ s + 10 ^ s ≤ (a / d + 1) * 10 ^ s * d
  room = omega (
    arith,
    swap_last (a / d + 1) (10 ^ s) d,
    mul-le-mul_right (10 ^ s)
        (let h : a + 1 ≤ (a / d + 1) * d = omega (arith, lt-div-mul-add {a = a} positive) in h),
  )

  taken : c * d ≤ a * 10 ^ s + d
  taken = omega (arith, mul-le-mul_right d next, div-mul-le_self (a * 10 ^ s) d)

  bounded : a * 10 ^ s ≤ 10 ^ 21 * 10 ^ s
  bounded = mul-le-mul_right (10 ^ s) small

  rounding : 10 ^ 37 * (10 ^ cut 38 c * d) ≤ 10 ^ 21 * 10 ^ s + 10 ^ 37 * d
  rounding = elim (zero_or_more (cut 38 c)) [
    | inl none_cut ↦ rw none_cut (omega arith)
    | inr (k, some_cut) ↦
        let long = le-of_excess c 38 c k (omega (arith, some_cut)) in
        rw some_cut (omega (arith, taken, bounded, mul-le-mul_right d (rw (digits_38 k) at long)))
  ]

  -- The quotient is below the next whole number by more than what rounding moves it.
  apart : 2 * c + 10 ^ cut 38 c < 2 * ((a / d + 1) * 10 ^ s)
  apart = lt_of_mul-lt-mul_right d (
      omega (
        arith,
        room,
        taken,
        rounding,
        fine,
        (let e : (2 * c + 10 ^ cut 38 c) * d ≡ 2 * (c * d) + 10 ^ cut 38 c * d = (grind arith) in
            e),
        (let e : 2 * ((a / d + 1) * 10 ^ s) * d ≡ 2 * ((a / d + 1) * 10 ^ s * d) = (grind arith) in
            e),
      ))

  upper : half_even c (10 ^ cut 38 c) < (a / d + 1) * 10 ^ (s - cut 38 c)
  upper =
      let (down, up) =
        half_even_bounds c (10 ^ cut 38 c) (omega (arith, ten_pow_positive (cut 38 c))) in
      let split : (a / d + 1) * 10 ^ s ≡ (a / d + 1) * 10 ^ (s - cut 38 c) * 10 ^ cut 38 c =
        rw (pow_split s (cut 38 c) short) (sym (mul_assoc (a / d + 1) _ _)) in
      lt_of_mul-lt-mul_right (10 ^ cut 38 c) (omega (arith, up, apart, split))

  exact : half_even c (10 ^ cut 38 c) / 10 ^ (s - cut 38 c) ≡ a / d
  exact = div-eq_of_lt-le (10 ^ (s - cut 38 c)) lower upper

le_zero : (n : ℕ) → n ≤ 0 → n ≡ 0
le_zero n h = omega arith

half_even_one : (n : ℕ) → half_even n (10 ^ 0) ≡ n
half_even_one n = let e : n * 1 ≡ n = omega arith in rw e at (half_even-mul n 1 (omega arith))

product_ℤ : (a b : ℕ) → pos a *ℤ pos b ≡ pos (a * b)
unfolding ◌*ℤ◌
product_ℤ a b = ground arith

-- The whole dollars of the policy and a price's coefficient and scale.
module _ (amount d t : ℕ) (positive : 1 ≤ d) (small : amount * 10 ^ t ≤ 10 ^ 21) where
  abbrev scale_of : ℕ
  scale_of = excess d 0 d + 39

  abbrev whole_price : Decimal
  whole_price = record { coefficient = pos d; scale = t }

  abbrev quotient : ℕ
  quotient = sticky (amount * 10 ^ t * 10 ^ scale_of / d) ((amount * 10 ^ t * 10 ^ scale_of) % d)

  div_whole : div 38 (of_ℕ amount) whole_price ≡ fix 38 (pos quotient) scale_of
  unfolding div
  div_whole =
      let e : d + 0 ≡ d = omega arith in
      let f : amount + 0 ≡ amount = omega arith in
      let g : excess d 0 d + 38 + 1 + t ≡ t + scale_of = omega arith in
      let h : 0 + (t + scale_of) - t ≡ scale_of = omega arith in
      rw (e, f, g, h, ten_pow_add t scale_of, ← mul_assoc amount (10 ^ t) (10 ^ scale_of)) refl

  fine : d * 10 ^ 39 ≤ 10 ^ scale_of
  fine =
      let e : 0 + excess d 0 d ≡ excess d 0 d = omega arith in
      let below = rw e at (lt-of_excess d 0 d (omega arith)) in
      omega (
        arith,
        ten_pow_add (excess d 0 d) 39,
        mul-le-mul_right (10 ^ 39) (let h : d ≤ 10 ^ excess d 0 d = omega arith in h),
      )

  floor_exact : floor (div 38 (of_ℕ amount) whole_price) ≡ amount * 10 ^ t / d
  unfolding floor
  floor_exact =
      let (near, next) =
        sticky_bounds (amount * 10 ^ t * 10 ^ scale_of / d)
          ((amount * 10 ^ t * 10 ^ scale_of) % d) in
      rw
        (
          div_whole,
          fix-positive 38 quotient scale_of
              (short (amount * 10 ^ t) d scale_of quotient positive small fine near next),
        )
        (exact (amount * 10 ^ t) d scale_of quotient positive small fine near next)

  product :
      (q : ℕ)
      → q * d ≤ amount * 10 ^ t
      → mul 38 whole_price (of_ℕ q) ≡ record { coefficient = pos (d * q); scale = t }
  unfolding mul
  product q le =
      let e : cut 38 (d * q) ≡ 0 =
        le_zero (cut 38 (d * q)) (excess-le (d * q) 38 (d * q) 0 (omega (arith, mul_comm d q))) in
      let f : t + 0 ≡ t = omega arith in
      let g' : t - 0 ≡ t = omega arith in
      let g : half_even (d * q) (10 ^ 0) ≡ d * q = half_even_one (d * q) in
      rw (product_ℤ d q, f, fix-positive 38 (d * q) t (rw e (omega arith)), e, g, g') refl

-- An approved result of an exact notional.
abbrev pub approved_at : FixedNotionalRiskPolicy → ℕ → Decimal → EntrySizingResult
approved_at policy quantity notional = record {
  policy_name = policy.name;
  policy_version = policy.version;
  outcome = approved;
  requested_quantity = some quantity;
  estimated_notional =
      some (record { amount = notional; currency = policy.maximum_notional.currency });
  reason_codes = fixed_notional_approved ∷ [];
}

record Checked (policy : FixedNotionalRiskPolicy) : Type 0 where
  name : (length policy.name == 0) ≡ false
  version : (length policy.version == 0) ≡ false
  minimum : policy.minimum_quantity ≡ 1

named : (name : Text) → codes_eq name fixed_usd_notional ≡ true → (length name == 0) ≡ false
named name h = rw (codes_eq→eq name fixed_usd_notional h) refl

new_policy-Checked :
    {policy : FixedNotionalRiskPolicy} → new_policy policy ≡ ok policy → Checked policy
unfolding new_policy code_ok
new_policy-Checked {policy} h = record {
  name = named policy.name (ground arith);
  version = ground arith;
  minimum = ground arith;
}

requested_value_lem :
    (price : Decimal) (policy : FixedNotionalRiskPolicy)
    → requested_value price policy ≡ floor (div 38 policy.maximum_notional.amount price)
unfolding requested_value
requested_value_lem price policy = refl

not_negative_positive :
    (c t : ℕ) → not (lt_dec (record { coefficient = pos c; scale = t }) (of_ℕ 0)) ≡ true
unfolding le_dec ◌*ℤ◌
not_negative_positive c t = ground arith

one_or_more : (q : ℕ) → (ltb (suc q) 1 ≡ false) × (leb 1 (suc q) ≡ true) × ((suc q == 0) ≡ false)
one_or_more q = ground arith

planned :
    (policy : FixedNotionalRiskPolicy) (price notional : Decimal) (q : ℕ)
    → requested_value price policy ≡ q
    → Checked policy
    → mul 38 price (of_ℕ q) ≡ notional
    → not (lt_dec notional (of_ℕ 0)) ≡ true
    → plan_fixed_notional_quantity price policy
      ≡ ok (if q == 0 then rejected_sizing policy else approved_at policy q notional)
unfolding plan_fixed_notional_quantity new_sizing codes_eq
planned policy price notional zero wanted c is positive =
    rw (wanted, c.minimum, c.name, c.version) refl
planned policy price notional (suc q) wanted c is positive =
    let (enough, counted, nonzero) = one_or_more q in
    rw (wanted, c.minimum, enough, counted, nonzero, is, positive, c.name, c.version) refl

-- For a policy that passed its checks with a maximum notional of a whole number of dollars, and a
-- positive price whose digits are few enough (1000 dollars and 18 decimals are within the bound),
-- plan_fixed_notional_quantity returns the largest quantity whose exact notional does not exceed
-- the maximum, with that exact notional, though the quotient is rounded to 38 digits; and it
-- rejects exactly when that quantity is 0.
pub plan_fixed_notional_quantity_exact :
    (policy : FixedNotionalRiskPolicy) (price : Decimal) (amount d : ℕ)
    → new_policy policy ≡ ok policy
    → policy.maximum_notional.amount ≡ of_ℕ amount
    → price.coefficient ≡ pos d
    → 1 ≤ d
    → amount * 10 ^ price.scale ≤ 10 ^ 21
    → (q : ℕ) × (q * d ≤ amount * 10 ^ price.scale)
      × (amount * 10 ^ price.scale < (q + 1) * d)
      × (plan_fixed_notional_quantity price policy
          ≡ ok (
              if q == 0
              then rejected_sizing policy
              else approved_at policy q
                  (record { coefficient = pos (d * q); scale = price.scale })))
plan_fixed_notional_quantity_exact policy price amount d valid whole_amount shape positive small =
    let t = price.scale in
    let q = amount * 10 ^ t / d in
    let le : q * d ≤ amount * 10 ^ t = div-mul-le_self (amount * 10 ^ t) d in
    let lt : amount * 10 ^ t < (q + 1) * d =
      omega (arith, lt-div-mul-add {a = amount * 10 ^ t} positive) in
    let same : price ≡ record { coefficient = pos d; scale = t } =
      ap (λ x. record { coefficient = x; scale = t }) shape in
    let wanted : requested_value price policy ≡ q =
      requested_value_lem price policy
      ∙ rw (whole_amount, same) (floor_exact amount d t positive small) in
    (
      q,
      le,
      lt,
      planned policy price _ q wanted (new_policy-Checked valid)
          (rw same (product amount d t positive small q le)) (not_negative_positive (d * q) t),
    )
