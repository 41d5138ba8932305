-- ===== src/Filters/Tests.antt =====
-- One market input, through the built-in filter sets.
use auto_trading_v.Prelude.{ℕ, ◌≡◌, ◌↔◌, refl, true, ◌&&◌, some, [], ok}
use auto_trading_v.Prelude.Int.{pos, ◌+ℤ◌, ◌-ℤ◌, ◌*ℤ◌}
use auto_trading_v.Text.{codes}
use auto_trading_v.Decimals.{
  Decimal, of_ℕ, le_dec, add, sub, mul, fix, half_even, excess, is_positive,
}
use auto_trading_v.Primitives.{price}
use auto_trading_v.Filters.{
  FilterInput, FilterEvaluationResult, evaluate, volatility_breakout_price, check_precision,
}
use auto_trading_v.Filters.Catalog.{strict_filter, balanced_filter}
use auto_trading_v.Filters.Passing.{Passes, evaluate-Passes_iff}
use auto_trading_v.Filters.Scores.{evaluate_total}

abbrev cents : ℕ → Decimal
cents n = record { coefficient = pos n; scale = 2 }

abbrev pub sample_input : FilterInput
sample_input = record {
  symbol = codes "ACME";
  open_price = cents 1200;
  last_price = cents 1275;
  previous_high_price = cents 1250;
  previous_low_price = cents 1200;
  previous_close_price = some (cents 1150);
  volume = some 900;
}

abbrev target : Decimal
target = record { coefficient = pos 12750; scale = 3 }

pub sample_target :
    volatility_breakout_price check_precision
      (cents 1250)
      (cents 1250)
      (cents 1200)
      (record { coefficient = pos 5; scale = 1 })
    ≡ ok target
unfolding volatility_breakout_price add sub mul fix half_even excess is_positive price le_dec ◌+ℤ◌
    ◌-ℤ◌ ◌*ℤ◌
sample_target = refl

evaluate_total_example :
    (r : FilterEvaluationResult) × (evaluate sample_input balanced_filter ≡ ok r)
    × ((le_dec (of_ℕ 0) r.score && le_dec r.score (of_ℕ 100)) ≡ true)
evaluate_total_example = evaluate_total balanced_filter refl refl sample_input target sample_target

abbrev pub sample_evaluation :
    (r : FilterEvaluationResult) × (evaluate sample_input strict_filter ≡ ok r)
    × ((le_dec (of_ℕ 0) r.score && le_dec r.score (of_ℕ 100)) ≡ true)
sample_evaluation = evaluate_total strict_filter refl refl sample_input target sample_target

evaluate-Passes_iff_example :
    ((sample_evaluation.0.passed ≡ true)
      ↔ Passes strict_filter.mode strict_filter.minimum_score sample_evaluation.0.checks
          sample_evaluation.0.score)
    × ((sample_evaluation.0.blocking_reason_codes ≡ []) ↔ (sample_evaluation.0.passed ≡ true))
evaluate-Passes_iff_example =
    evaluate-Passes_iff sample_input strict_filter sample_evaluation.0 sample_evaluation.1
