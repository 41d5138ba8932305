-- ===== src/Scoring/Components.antt =====
-- The averages of calculate_component_scores (domain/feature_scoring/scoring.py) and RelativeScore
-- (models.py).
use auto_trading_v.Prelude.{
  ℕ, suc, ◌+◌, ◌*◌, ◌^◌, ◌≤◌, ◌<◌, ◌≡◌, refl, List, [], ◌∷◌, map, length, sum_of, arith, ok,
}
use auto_trading_v.Decimals.{Decimal, of_ℕ, add, div, mul}
use auto_trading_v.Decimals.Intervals.{
  In, In-wider, of_ℕ-In, add-In, mul-In, div-In, le_dec-In, quantize-In,
}
use auto_trading_v.Filters.{sum_from}
use auto_trading_v.Scoring.{average_of_100, weighted_score, relative_score}
use auto_trading_v.Scoring.Percentiles.{most}

abbrev pub AllWithin : ℕ → List Decimal → Type 0
AllWithin hi [] = Unit
AllWithin hi (d ∷ ds) = In 0 hi d × AllWithin hi ds

pub sum_from-In :
    (hi t : ℕ) (total : Decimal) (ds : List Decimal)
    → In 0 t total
    → AllWithin hi ds
    → t + length ds * hi < 10 ^ 38
    → In 0 (t + length ds * hi) (sum_from 38 total ds)
unfolding sum_from
sum_from-In hi t total [] h a short = In-wider total (omega arith) (omega arith) h
sum_from-In hi t total (d ∷ ds) h a short =
    let e : t + hi + length ds * hi ≡ t + suc (length ds) * hi = omega arith in
    rw (← e) (
      sum_from-In hi (t + hi) (add 38 total d) ds (add-In 38 total d 0 t 0 hi h a.0 (omega arith))
        a.1 (omega arith))

-- The average of percentiles, in hundredths.
pub average_of_100-In :
    (ps : List Decimal)
    → AllWithin 1 ps
    → 1 ≤ length ps
    → length ps ≤ most
    → In 0 100 (average_of_100 ps)
unfolding average_of_100
average_of_100-In ps a some_left few =
    let total = sum_from-In 1 0 (of_ℕ 0) ps (of_ℕ-In 0) a (omega arith) in
    let average =
      div-In 38 (sum_from 38 (of_ℕ 0) ps) (length ps) 0 (0 + length ps * 1) 0 1 some_left total
        (omega arith) (omega arith) (omega arith) in
    mul-In 38 (div 38 (sum_from 38 (of_ℕ 0) ps) (of_ℕ (length ps))) (of_ℕ 100) 0 1 100 100 average
      (of_ℕ-In 100) (omega arith)

-- Scores and their weights.
abbrev pub AllScores : List (Decimal × ℕ) → Type 0
AllScores [] = Unit
AllScores (x ∷ xs) = In 0 100 x.0 × AllScores xs

abbrev weights : List (Decimal × ℕ) → ℕ
weights active = sum_of (λ a. a.1) active

weighted_sum-In :
    (t : ℕ) (total : Decimal) (active : List (Decimal × ℕ))
    → In 0 t total
    → AllScores active
    → t + 100 * weights active < 10 ^ 38
    → In 0 (t + 100 * weights active) (sum_from 38 total (map (λ a. mul 38 a.0 (of_ℕ a.1)) active))
unfolding sum_from
weighted_sum-In t total [] h a short = In-wider total (omega arith) (omega arith) h
weighted_sum-In t total (x ∷ xs) h a short =
    let part : In 0 (100 * x.1) (mul 38 x.0 (of_ℕ x.1)) =
      In-wider {lo = 0 * x.1} {hi = 100 * x.1} (mul 38 x.0 (of_ℕ x.1)) (omega arith) (omega arith)
        (mul-In 38 x.0 (of_ℕ x.1) 0 100 x.1 x.1 a.0 (of_ℕ-In x.1) (omega arith)) in
    let e : t + 100 * x.1 + 100 * weights xs ≡ t + 100 * (x.1 + weights xs) = omega arith in
    rw (← e) (
      weighted_sum-In (t + 100 * x.1) (add 38 total (mul 38 x.0 (of_ℕ x.1))) xs
        (add-In 38 total (mul 38 x.0 (of_ℕ x.1)) 0 t 0 (100 * x.1) h part (omega arith)) a.1
        (omega arith))

pub weighted_score-In :
    (active : List (Decimal × ℕ))
    → AllScores active
    → 1 ≤ weights active
    → weights active ≤ most
    → In 0 100 (weighted_score active)
unfolding weighted_score
weighted_score-In active a some_weight few =
    div-In 38 _ (weights active) 0 (0 + 100 * weights active) 0 100 some_weight
      (weighted_sum-In 0 (of_ℕ 0) active (of_ℕ-In 0) a (omega arith)) (omega arith) (omega arith)
      (omega arith)

-- A score from 0 to 100 passes the checks of RelativeScore, and stays there.
pub relative_score-In :
    (a : Decimal) → In 0 100 a → (q : Decimal) × (relative_score a ≡ ok q) × In 0 100 q
unfolding relative_score
relative_score-In a h =
    let (q, made, within) = quantize-In 38 6 a 0 100 h (omega arith) in
    (
      q,
      rw
          (
            le_dec-In (of_ℕ 0) a 0 0 0 100 (of_ℕ-In 0) h (omega arith),
            le_dec-In a (of_ℕ 100) 0 100 100 100 h (of_ℕ-In 100) (omega arith),
            made,
          )
          refl,
      within,
    )
