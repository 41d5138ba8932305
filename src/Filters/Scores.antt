-- ===== src/Filters/Scores.antt =====
-- The score of DeterministicFilterEngine.evaluate (domain/filtering/engine.py) with the built-in weights.
use auto_trading_v.Prelude.{false, all_bool, all_bool-at}
use auto_trading_v.Prelude.{
  ℕ, ◌≡◌, refl, inl, inr, true, ◌&&◌, Bool, List, [], ◌∷◌, arith, Result, ok, if◌then◌else◌,
  Option-cases,
}
use auto_trading_v.Prelude.Int.{◌+ℤ◌, ◌*ℤ◌}
use auto_trading_v.Text.{Text}
use auto_trading_v.Decimals.{Decimal, of_ℕ, le_dec, add, fix, half_even, excess}
use auto_trading_v.Prelude.{any}
use auto_trading_v.Filters.{
  is_blank, is_negative, name_eq, FilterCheckName, price_range, opening_change_min,
  entry_change_max, breakout_triggered, volume_present, FilterOutcome, is_pass, FilterInput,
  FilterSetDefinition, FilterCheckResult, FilterEvaluationResult, FilterError, Shown, weight_of,
  result, price_range_check, opening_change_check, entry_change_check, breakout_check,
  volume_present_check, volatility_breakout_price, evaluate_checks, evaluate, evaluation_of,
  new_evaluation, passed_weights, sum_from, check_precision,
}
use auto_trading_v.Filters.Catalog.{common_weights}

-- The score of the checks that passed, by their weights.
abbrev score_of : Bool → Bool → Bool → Bool → Bool → Decimal
score_of a b c d e =
    let w5 = if e then of_ℕ 10 ∷ [] else [] in
    let w4 = if d then of_ℕ 30 ∷ w5 else w5 in
    let w3 = if c then of_ℕ 20 ∷ w4 else w4 in
    let w2 = if b then of_ℕ 20 ∷ w3 else w3 in
    sum_from check_precision (of_ℕ 0) (if a then of_ℕ 20 ∷ w2 else w2)

abbrev in_range : Decimal → Bool
in_range s = le_dec (of_ℕ 0) s && le_dec s (of_ℕ 100)

scores_in_range :
    all_bool (λ a.
      all_bool (λ b. all_bool (λ c. all_bool (λ d. all_bool (λ e. in_range (score_of a b c d e))))))
    ≡ true
unfolding all_bool sum_from add fix half_even excess le_dec ◌+ℤ◌ ◌*ℤ◌
scores_in_range = refl

score-in_range : (a b c d e : Bool) → in_range (score_of a b c d e) ≡ true
score-in_range a b c d e =
    all_bool-at (λ e. in_range (score_of a b c d e)) e
      (all_bool-at (λ d. all_bool (λ e. in_range (score_of a b c d e))) d
        (all_bool-at (λ c. all_bool (λ d. all_bool (λ e. in_range (score_of a b c d e)))) c
          (all_bool-at
            (λ b. all_bool (λ c. all_bool (λ d. all_bool (λ e. in_range (score_of a b c d e))))) b
            (all_bool-at
              (λ a. all_bool (λ b.
                all_bool (λ c. all_bool (λ d. all_bool (λ e. in_range (score_of a b c d e))))))
              a scores_in_range))))

-- A check that returned, of the given name and weight.
record Returned (x : Result FilterError FilterCheckResult) (n : FilterCheckName) (w : ℕ)
    : Type 0 where
  check : FilterCheckResult
  returned : x ≡ ok check
  name : check.name ≡ n
  weight : check.weight ≡ of_ℕ w

module _ (d : FilterSetDefinition) (common : d.weights ≡ common_weights)
    (named : is_blank d.evaluation_version ≡ false) where
  result-Returned :
      (n : FilterCheckName) (w : ℕ) (o : FilterOutcome) (reason : Text)
      (shown limits : List (Text × Shown))
      → weight_of common_weights n ≡ ok (of_ℕ w)
      → is_negative (of_ℕ w) ≡ false
      → Returned (result d n o reason shown limits) n w
  unfolding result
  result-Returned n w o reason shown limits h positive = record {
    check = record {
      name = n;
      outcome = o;
      reason_code = reason;
      hard = any (name_eq n) d.hard_checks;
      weight = of_ℕ w;
      observed = shown;
      threshold = limits;
    };
    returned = rw (common, h, positive) refl;
    name = refl;
    weight = refl;
  }

  price_range-Returned : (i : FilterInput) → Returned (price_range_check i d) price_range 20
  unfolding price_range_check weight_of le_dec ◌*ℤ◌
  price_range-Returned i = result-Returned price_range 20 _ _ _ _ refl refl

  opening_change-Returned :
      (i : FilterInput) → Returned (opening_change_check i d) opening_change_min 20
  unfolding opening_change_check weight_of le_dec ◌*ℤ◌
  opening_change-Returned i = elim (Option-cases i.previous_close_price) [
    | inl missing ↦ rw missing (result-Returned opening_change_min 20 _ _ _ _ refl refl)
    | inr (close, there) ↦ rw there (result-Returned opening_change_min 20 _ _ _ _ refl refl)
  ]

  entry_change-Returned : (i : FilterInput) → Returned (entry_change_check i d) entry_change_max 20
  unfolding entry_change_check weight_of le_dec ◌*ℤ◌
  entry_change-Returned i = elim (Option-cases i.previous_close_price) [
    | inl missing ↦ rw missing (result-Returned entry_change_max 20 _ _ _ _ refl refl)
    | inr (close, there) ↦ rw there (result-Returned entry_change_max 20 _ _ _ _ refl refl)
  ]

  breakout-Returned :
      (i : FilterInput) (target : Decimal)
      → volatility_breakout_price check_precision i.previous_high_price i.previous_high_price
          i.previous_low_price d.thresholds.breakout_factor
        ≡ ok target
      → Returned (breakout_check i d) breakout_triggered 30
  unfolding breakout_check weight_of le_dec ◌*ℤ◌
  breakout-Returned i target h = rw h (result-Returned breakout_triggered 30 _ _ _ _ refl refl)

  volume-Returned : (i : FilterInput) → Returned (volume_present_check i d) volume_present 10
  unfolding volume_present_check weight_of le_dec ◌*ℤ◌
  volume-Returned i = result-Returned volume_present 10 _ _ _ _ refl refl

  -- The evaluation of five checks of the built-in names and weights.
  new_evaluation-ok :
      (a b c e f : FilterCheckResult)
      → a.name ≡ price_range
      → b.name ≡ opening_change_min
      → c.name ≡ entry_change_max
      → e.name ≡ breakout_triggered
      → f.name ≡ volume_present
      → in_range (sum_from check_precision (of_ℕ 0) (passed_weights (a ∷ b ∷ c ∷ e ∷ f ∷ [])))
        ≡ true
      → (r : FilterEvaluationResult) × (new_evaluation (
            evaluation_of d
              (a ∷ b ∷ c ∷ e ∷ f ∷ [])
              (sum_from check_precision (of_ℕ 0) (passed_weights (a ∷ b ∷ c ∷ e ∷ f ∷ []))))
          ≡ ok r)
        × (in_range r.score ≡ true)
  unfolding new_evaluation
  new_evaluation-ok a b c e f ha hb hc he hf within =
      let checks = a ∷ b ∷ c ∷ e ∷ f ∷ [] in
      (
        evaluation_of d checks (sum_from check_precision (of_ℕ 0) (passed_weights checks)),
        rw (named, ha, hb, hc, he, hf) (ground arith),
        within,
      )

  -- A filter set with the built-in weights and a version that is not blank evaluates every input
  -- whose breakout target can be computed: none of the engine's checks raises, and the score is
  -- between 0 and 100.
  pub evaluate_total :
      (i : FilterInput) (target : Decimal)
      → volatility_breakout_price check_precision i.previous_high_price i.previous_high_price
          i.previous_low_price d.thresholds.breakout_factor
        ≡ ok target
      → (r : FilterEvaluationResult) × (evaluate i d ≡ ok r) × (in_range r.score ≡ true)
  unfolding evaluate evaluate_checks
  evaluate_total i target h =
      let a = price_range-Returned i in
      let b = opening_change-Returned i in
      let c = entry_change-Returned i in
      let e = breakout-Returned i target h in
      let f = volume-Returned i in
      let (r, made, within) =
        new_evaluation-ok a.check b.check c.check e.check f.check a.name b.name c.name e.name f.name
          (rw (a.weight, b.weight, c.weight, e.weight, f.weight)
            (score-in_range (is_pass a.check.outcome) (is_pass b.check.outcome)
              (is_pass c.check.outcome) (is_pass e.check.outcome) (is_pass f.check.outcome))) in
      (r, rw (a.returned, b.returned, c.returned, e.returned, f.returned) made, within)
