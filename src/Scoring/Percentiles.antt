-- ===== src/Scoring/Percentiles.antt =====
-- ascending_midrank_percentiles (domain/feature_scoring/scoring.py).
use auto_trading_v.Prelude.{
  ℕ, zero, suc, ◌+◌, ◌-◌, ◌^◌, ◌≤◌, ◌≡◌, refl, ap, sym, ◌∙◌, inl, inr, Bool, true, false,
  Bool-cases, ◌||◌, some, List, [], ◌∷◌, ◌++◌, map, any, find_first, length, take, drop, arith,
  ◌==◌, length-drop, take-append-drop, any-append,
}
use auto_trading_v.Decimals.{Decimal, of_ℕ, add, div}
use auto_trading_v.Decimals.Intervals.{In, of_ℕ-In, add-In, sub-In, div-In}
use auto_trading_v.Scoring.{
  insert_by_value, sort_by_value, ties, midrank_percentile, assign_percentiles,
  ascending_midrank_percentiles,
}

-- A population that is not too large to count in decimals.
abbrev pub most : ℕ
most = 10 ^ 30

midrank_percentile-In :
    (start end size : ℕ)
    → start ≤ end
    → end + 1 ≤ size
    → 2 ≤ size
    → size ≤ most
    → In 0 1 (midrank_percentile start end size)
unfolding midrank_percentile
midrank_percentile-In start end size order within two few =
    let ranks =
      add-In 38 (of_ℕ (start + 1)) (of_ℕ (end + 1)) (start + 1) (start + 1) (end + 1) (end + 1)
        (of_ℕ-In (start + 1)) (of_ℕ-In (end + 1)) (omega arith) in
    let average =
      div-In 38 (add 38 (of_ℕ (start + 1)) (of_ℕ (end + 1))) 2 (start + 1 + (end + 1))
        (start + 1 + (end + 1)) 1 size (omega arith) ranks (omega arith) (omega arith)
        (omega arith) in
    let above =
      sub-In 38 (div 38 (add 38 (of_ℕ (start + 1)) (of_ℕ (end + 1))) (of_ℕ 2)) (of_ℕ 1) 1 size 1 1
        average (of_ℕ-In 1) (omega arith) (omega arith) in
    div-In 38 _ (size - 1) (1 - 1) (size - 1) 0 1 (omega arith) above (omega arith) (omega arith)
      (omega arith)

abbrev pub AllIn : ℕ → ℕ → List (ℕ × Decimal) → Type 0
AllIn lo hi [] = Unit
AllIn lo hi (e ∷ es) = In lo hi e.1 × AllIn lo hi es

AllIn-append : (es fs : List (ℕ × Decimal)) → AllIn 0 1 es → AllIn 0 1 fs → AllIn 0 1 (es ++ fs)
AllIn-append [] fs a b = b
AllIn-append (e ∷ es) fs a b = (a.0, AllIn-append es fs a.1 b)

AllIn-const :
    (p : Decimal) (es : List (ℕ × Decimal)) → In 0 1 p → AllIn 0 1 (map (λ f. (f.0, p)) es)
AllIn-const p [] h = tt
AllIn-const p (e ∷ es) h = (h, AllIn-const p es h)

-- k in xs
abbrev pub has_key : ℕ → List (ℕ × Decimal) → Bool
has_key k xs = any (λ e. e.0 == k) xs

has_key-const :
    (k : ℕ) (p : Decimal) (es : List (ℕ × Decimal))
    → has_key k (map (λ f. (f.0, p)) es) ≡ has_key k es
has_key-const k p [] = refl
has_key-const k p (e ∷ es) = rw (has_key-const k p es) refl

or_assoc : (a b c : Bool) → ((a || b) || c) ≡ (a || (b || c))
or_assoc true b c = refl
or_assoc false b c = refl

ties-le : (v : Decimal) (es : List (ℕ × Decimal)) → ties v es ≤ length es
unfolding ties
ties-le v [] = omega arith
ties-le v (e ∷ es) = ground (arith, ties-le v es)

assign_percentiles-AllIn :
    (fuel start size : ℕ) (left : List (ℕ × Decimal))
    → start + length left ≡ size
    → 2 ≤ size
    → size ≤ most
    → AllIn 0 1 (assign_percentiles fuel start size left)
unfolding assign_percentiles
assign_percentiles-AllIn zero start size left counted two few = tt
assign_percentiles-AllIn (suc fuel) start size [] counted two few = tt
assign_percentiles-AllIn (suc fuel) start size (e ∷ es) counted two few =
    let n = ties e.1 es in
    let le = ties-le e.1 es in
    let p = midrank_percentile start (start + n) size in
    let within = midrank_percentile-In start (start + n) size (omega arith) (omega arith) two few in
    AllIn-append (map (λ f. (f.0, p)) (e ∷ take n es)) _ (AllIn-const p (e ∷ take n es) within) (
      assign_percentiles-AllIn fuel (start + n + 1) size (drop n es)
        (omega (arith, length-drop n es)) two few)

-- The fuel is enough: no key is lost.
has_key-assign_percentiles :
    (k fuel start size : ℕ) (left : List (ℕ × Decimal))
    → length left ≤ fuel
    → has_key k (assign_percentiles fuel start size left) ≡ has_key k left
unfolding assign_percentiles
has_key-assign_percentiles k zero start size [] h = refl
has_key-assign_percentiles k zero start size (e ∷ es) h = absurd (omega arith)
has_key-assign_percentiles k (suc fuel) start size [] h = refl
has_key-assign_percentiles k (suc fuel) start size (e ∷ es) h =
    let n = ties e.1 es in
    let p = midrank_percentile start (start + n) size in
    let rest = assign_percentiles fuel (start + n + 1) size (drop n es) in
    let later =
      has_key-assign_percentiles k fuel (start + n + 1) size (drop n es)
        (omega (arith, length-drop n es)) in
    let split : has_key k es ≡ (has_key k (take n es) || has_key k (drop n es)) =
      ap (has_key k) (sym (take-append-drop n es))
      ∙ any-append (λ f. f.0 == k) (take n es) (drop n es) in
    any-append (λ f. f.0 == k) (map (λ f. (f.0, p)) (e ∷ take n es)) rest
    ∙ rw (has_key-const k p (take n es), later, split) (or_assoc (e.0 == k) _ _)

has_key-insert :
    (k : ℕ) (e : ℕ × Decimal) (es : List (ℕ × Decimal))
    → has_key k (insert_by_value e es) ≡ (e.0 == k || has_key k es)
unfolding insert_by_value
has_key-insert k e [] = refl
has_key-insert k e (f ∷ fs) = ground (arith, has_key-insert k e fs)

has_key-sort : (k : ℕ) (es : List (ℕ × Decimal)) → has_key k (sort_by_value es) ≡ has_key k es
unfolding sort_by_value
has_key-sort k [] = refl
has_key-sort k (e ∷ es) = has_key-insert k e (sort_by_value es) ∙ rw (has_key-sort k es) refl

length-insert :
    (e : ℕ × Decimal) (es : List (ℕ × Decimal)) → length (insert_by_value e es) ≡ suc (length es)
unfolding insert_by_value
length-insert e [] = refl
length-insert e (f ∷ fs) = ground (arith, length-insert e fs)

length-sort : (es : List (ℕ × Decimal)) → length (sort_by_value es) ≡ length es
unfolding sort_by_value
length-sort [] = refl
length-sort (e ∷ es) = length-insert e (sort_by_value es) ∙ ap suc (length-sort es)

pub has_key-percentiles :
    (k : ℕ) (values : List (ℕ × Decimal))
    → has_key k (ascending_midrank_percentiles values) ≡ has_key k values
unfolding ascending_midrank_percentiles
has_key-percentiles k [] = refl
has_key-percentiles k (e ∷ []) = refl
has_key-percentiles k (e ∷ f ∷ es) =
    let values = e ∷ f ∷ es in
    has_key-assign_percentiles k (length values) 0 (length values) (sort_by_value values)
      (omega (arith, length-sort values))
    ∙ has_key-sort k values

pub percentiles-AllIn :
    (values : List (ℕ × Decimal))
    → length values ≤ most
    → AllIn 0 1 (ascending_midrank_percentiles values)
unfolding ascending_midrank_percentiles
percentiles-AllIn [] few = tt
percentiles-AllIn (e ∷ []) few = ((5, refl, omega arith, omega arith), tt)
percentiles-AllIn (e ∷ f ∷ es) few =
    let values = e ∷ f ∷ es in
    assign_percentiles-AllIn (length values) 0 (length values) (sort_by_value values)
      (omega (arith, length-sort values)) (omega arith) few

pub found-In :
    (k : ℕ) (xs : List (ℕ × Decimal))
    → AllIn 0 1 xs
    → has_key k xs ≡ true
    → (e : ℕ × Decimal) × (find_first (λ f. f.0 == k) xs ≡ some e) × In 0 1 e.1
found-In k [] a h = absurd (cc h)
found-In k (x ∷ xs) a h = elim (Bool-cases (x.0 == k)) [
  | inl here ↦ (x, rw here refl, a.0)
  | inr later ↦
      let (e, found, within) = found-In k xs a.1 (rw later at h) in (e, rw later found, within)
]
