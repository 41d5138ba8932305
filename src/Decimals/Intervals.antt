-- ===== src/Decimals/Intervals.antt =====
-- Decimal arithmetic between whole numbers, with its rounding.
use native.Mathlib.Nat.{
  le_trans, mul-sub, le_of_mul-le-mul_right, lt_of_mul-lt-mul_right, div-add-mod', mul-mul-mul_comm,
  mul-le-mul, mul-le-mul_right, mul_assoc, mul_comm, div-mul-le_self, le-div_iff_mul-le,
}
use auto_trading_v.Prelude.{
  lt→ltb, le→leb, true, some, ℕ, ◌+◌, ◌-◌, ◌*◌, ◌/◌, ◌%◌, ◌^◌, ◌≤◌, ◌<◌, ◌≡◌, refl, ap, sym, ◌∙◌,
  inl, inr, arith, Bool-cases, leb, ◌==◌, leb→le,
}
use auto_trading_v.Prelude.Int.{pos, ◌+ℤ◌, ◌-ℤ◌, ◌*ℤ◌}
use auto_trading_v.Decimals.{
  le_dec, quantize, Decimal, of_ℕ, rescaled, common_scale, excess, half_even, fix, add, sub, mul,
  sticky, div,
}
use auto_trading_v.Decimals.Bounds.{
  ten_pow_add, pow_split, cut, cut-le, fix-positive, rounded-ge, rounded-le,
}

-- A number from lo to hi.
abbrev pub In : ℕ → ℕ → Decimal → Type 0
In lo hi a = (m : ℕ) × (a.coefficient ≡ pos m) × (lo * 10 ^ a.scale ≤ m) × (m ≤ hi * 10 ^ a.scale)

pub of_ℕ-In : (n : ℕ) → In n n (of_ℕ n)
of_ℕ-In n = (n, refl, omega arith, omega arith)

pub In-wider : {lo hi lo' hi' : ℕ} (a : Decimal) → lo' ≤ lo → hi ≤ hi' → In lo hi a → In lo' hi' a
In-wider {lo} {hi} {lo'} {hi'} a l h (m, is, ge, le) = (
  m,
  is,
  omega (arith, mul-le-mul_right (10 ^ a.scale) l),
  omega (arith, mul-le-mul_right (10 ^ a.scale) h),
)

pub fix-In :
    (prec n s lo hi : ℕ)
    → hi < 10 ^ prec
    → lo * 10 ^ s ≤ n
    → n ≤ hi * 10 ^ s
    → In lo hi (fix prec (pos n) s)
fix-In prec n s lo hi short ge le =
    let k = cut-le prec n s hi short le in
    rw (fix-positive prec n s k) (
      half_even n (10 ^ cut prec n),
      refl,
      rounded-ge lo n s (cut prec n) k ge,
      rounded-le hi n s (cut prec n) k le,
    )

pos_times : (a b : ℕ) → pos a *ℤ pos b ≡ pos (a * b)
unfolding ◌*ℤ◌
pos_times a b = ground arith

pos_plus : (a b : ℕ) → pos a +ℤ pos b ≡ pos (a + b)
unfolding ◌+ℤ◌
pos_plus a b = ground arith

pos_minus : (a b : ℕ) → b ≤ a → pos a -ℤ pos b ≡ pos (a - b)
unfolding ◌-ℤ◌
pos_minus a b h = ground arith

sub-mul : (a b c : ℕ) → (a - b) * c ≡ a * c - b * c
sub-mul a b c = mul_comm (a - b) c ∙ mul-sub c a b ∙ rw (mul_comm c a, mul_comm c b) refl

scaled_bounds :
    (m lo hi t s : ℕ)
    → t ≤ s
    → lo * 10 ^ t ≤ m
    → m ≤ hi * 10 ^ t
    → (lo * 10 ^ s ≤ m * 10 ^ (s - t)) × (m * 10 ^ (s - t) ≤ hi * 10 ^ s)
scaled_bounds m lo hi t s h ge le =
    let p : 10 ^ s ≡ 10 ^ t * 10 ^ (s - t) = pow_split s t h ∙ mul_comm (10 ^ (s - t)) (10 ^ t) in
    (
      rw (p, ← mul_assoc lo (10 ^ t) (10 ^ (s - t))) (mul-le-mul_right (10 ^ (s - t)) ge),
      rw (p, ← mul_assoc hi (10 ^ t) (10 ^ (s - t))) (mul-le-mul_right (10 ^ (s - t)) le),
    )

-- A number on a finer scale.
finer :
    (a : Decimal) (lo hi s : ℕ)
    → a.scale ≤ s
    → In lo hi a
    → (m : ℕ) × (rescaled a s ≡ pos m) × (lo * 10 ^ s ≤ m) × (m ≤ hi * 10 ^ s)
finer a lo hi s h (m, is, ge, le) =
    let (above, below) = scaled_bounds m lo hi a.scale s h ge le in
    (m * 10 ^ (s - a.scale), rw is (pos_times m (10 ^ (s - a.scale))), above, below)

common_scale-ge : (a b : Decimal) → (a.scale ≤ common_scale a b) × (b.scale ≤ common_scale a b)
common_scale-ge a b = ground arith

module _ (prec : ℕ) (a b : Decimal) (lo hi lo' hi' : ℕ) (left : In lo hi a)
    (right : In lo' hi' b) where
  pub add-In : hi + hi' < 10 ^ prec → In (lo + lo') (hi + hi') (add prec a b)
  unfolding add
  add-In short =
      let s = common_scale a b in
      let (x, y) = common_scale-ge a b in
      let (m, is, ge, le) = finer a lo hi s x left in
      let (n, is', ge', le') = finer b lo' hi' s y right in
      rw (is, is', pos_plus m n)
        (fix-In prec (m + n) s (lo + lo') (hi + hi') short (omega (arith, ge, ge'))
          (omega (arith, le, le')))

  pub sub-In : hi' ≤ lo → hi < 10 ^ prec → In (lo - hi') (hi - lo') (sub prec a b)
  unfolding sub
  sub-In below short =
      let s = common_scale a b in
      let (x, y) = common_scale-ge a b in
      let (m, is, ge, le) = finer a lo hi s x left in
      let (n, is', ge', le') = finer b lo' hi' s y right in
      let below' : n ≤ m = omega (arith, le', ge, mul-le-mul_right (10 ^ s) below) in
      rw (is, is', pos_minus m n below')
        (fix-In prec (m - n) s (lo - hi') (hi - lo') (omega (arith, short))
          (rw (sub-mul lo hi' (10 ^ s)) (omega (arith, ge, le')))
          (rw (sub-mul hi lo' (10 ^ s)) (omega (arith, le, ge'))))

  pub mul-In : hi * hi' < 10 ^ prec → In (lo * lo') (hi * hi') (mul prec a b)
  unfolding mul
  mul-In short =
      let (m, is, ge, le) = left in
      let (n, is', ge', le') = right in
      rw (is, is', pos_times m n)
        (fix-In prec (m * n) (a.scale + b.scale) (lo * lo') (hi * hi') short
          (rw (ten_pow_add a.scale b.scale, mul-mul-mul_comm lo lo' (10 ^ a.scale) (10 ^ b.scale))
            (mul-le-mul ge ge'))
          (rw (ten_pow_add a.scale b.scale, mul-mul-mul_comm hi hi' (10 ^ a.scale) (10 ^ b.scale))
            (mul-le-mul le le')))

sticky-le : (n d bound : ℕ) → 1 ≤ d → n ≤ bound * d → sticky (n / d) (n % d) ≤ bound
sticky-le n d bound h le = elim (Bool-cases (n % d == 0)) [
  | inl exact ↦ rw exact (
      le_of_mul-le-mul_right
        (let b : n / d * d ≤ bound * d = omega (arith, div-mul-le_self n d, le) in b) h)
  | inr more ↦
      let r : 1 ≤ n % d = ground arith in
      let less : n / d < bound =
        lt_of_mul-lt-mul_right d (omega (arith, div-add-mod' n d, le, r)) in
      ground arith
]

sticky-ge : (n d bound : ℕ) → 1 ≤ d → bound * d ≤ n → bound ≤ sticky (n / d) (n % d)
sticky-ge n d bound h le = let b : bound ≤ n / d = (le-div_iff_mul-le h).1 le in ground arith

regroup : (x a b d : ℕ) → x * (a * b) * d ≡ x * d * a * b
regroup x a b d =
    mul_assoc x (a * b) d
    ∙ ap (λ t. x * t) (mul_comm (a * b) d)
    ∙ sym (mul_assoc x d (a * b))
    ∙ sym (mul_assoc (x * d) a b)

-- A quotient by a whole number.
pub div-In :
    (prec : ℕ) (a : Decimal) (d lo hi l h : ℕ)
    → 1 ≤ d
    → In lo hi a
    → l * d ≤ lo
    → hi ≤ h * d
    → h < 10 ^ prec
    → In l h (div prec a (of_ℕ d))
unfolding div
div-In prec a d lo hi l h positive (m, is, ge, le) low high short =
    let shift = excess d 0 d + prec + 1 + 0 in
    let e : d + 0 ≡ d = omega arith in
    let f : m + 0 ≡ m = omega arith in
    let g : a.scale + shift - 0 ≡ a.scale + shift = omega arith in
    let p = ten_pow_add a.scale shift in
    rw (is, e, f, g)
      (fix-In prec (sticky (m * 10 ^ shift / d) ((m * 10 ^ shift) % d)) (a.scale + shift) l h short
        (sticky-ge (m * 10 ^ shift) d _ positive (
          rw (p, regroup l (10 ^ a.scale) (10 ^ shift) d)
            (mul-le-mul_right (10 ^ shift) (le_trans (mul-le-mul_right (10 ^ a.scale) low) ge))))
        (sticky-le (m * 10 ^ shift) d _ positive (
          rw (p, regroup h (10 ^ a.scale) (10 ^ shift) d)
            (mul-le-mul_right (10 ^ shift) (le_trans le (mul-le-mul_right (10 ^ a.scale) high))))))

pub le_dec-In :
    (a b : Decimal) (lo hi lo' hi' : ℕ) → In lo hi a → In lo' hi' b → hi ≤ lo' → le_dec a b ≡ true
unfolding le_dec
le_dec-In a b lo hi lo' hi' left right h =
    let s = common_scale a b in
    let (x, y) = common_scale-ge a b in
    let (m, is, ge, le) = finer a lo hi s x left in
    let (n, is', ge', le') = finer b lo' hi' s y right in
    rw (is, is') (le→leb (m + 0) (n + 0) (omega (arith, le, ge', mul-le-mul_right (10 ^ s) h)))

-- Quantizing a number that has few enough digits.
pub quantize-In :
    (prec s : ℕ) (a : Decimal) (lo hi : ℕ)
    → In lo hi a
    → hi * 10 ^ s < 10 ^ prec
    → (q : Decimal) × (quantize prec s a ≡ some q) × In lo hi q
unfolding quantize
quantize-In prec s a lo hi (m, is, ge, le) short =
    let e : m + 0 ≡ m = omega arith in
    elim (Bool-cases (leb a.scale s)) [
      | inl coarse ↦
          let h = leb→le a.scale s coarse in
          let (above, below) = scaled_bounds m lo hi a.scale s h ge le in
          let small = lt→ltb (m * 10 ^ (s - a.scale)) (10 ^ prec) (omega (arith, below, short)) in
          rw (is, e, coarse, small)
            (
              record { coefficient = pos (m * 10 ^ (s - a.scale)); scale = s },
              refl,
              (m * 10 ^ (s - a.scale), refl, above, below),
            )
      | inr fine ↦
          let k = a.scale - s in
          let h : s ≤ a.scale = ground arith in
          let back : a.scale - k ≡ s = omega arith in
          let above = rw back at (rounded-ge lo m a.scale k (omega arith) ge) in
          let below = rw back at (rounded-le hi m a.scale k (omega arith) le) in
          let small = lt→ltb (half_even m (10 ^ k)) (10 ^ prec) (omega (arith, below, short)) in
          rw (is, e, fine, small)
            (
              record { coefficient = pos (half_even m (10 ^ k)); scale = s },
              refl,
              (half_even m (10 ^ k), refl, above, below),
            )
    ]
