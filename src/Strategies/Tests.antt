-- ===== src/Strategies/Tests.antt =====
-- Decisions on a sample evaluation, and the exit of a sample position.
use auto_trading_v.Prelude.{
  ℕ, ◌≡◌, ◌↔◌, ◌⊎◌, refl, true, false, none, some, List, [], ◌∷◌, arith, ok, codes_eq,
}
use auto_trading_v.Prelude.Int.{pos, negsuc}
use auto_trading_v.Text.{Text, codes}
use auto_trading_v.Decimals.{Decimal}
use auto_trading_v.UnitOfWork.{enter_long, exit_long, skip}
use auto_trading_v.Filters.Catalog.{strict_filter}
use auto_trading_v.Filters.Passing.{Passes}
use auto_trading_v.Filters.Tests.{sample_input, sample_evaluation}
use auto_trading_v.Strategies.{
  StrategyDefinition, new_signal, decide, normalize_reason_codes, normalize_from, is_reason_code,
  is_empty, PositionExitPolicy, PositionExitEvaluation, evaluate_position_exit,
}
use auto_trading_v.Strategies.Codes.{
  AreNew, normalize_reason_codes_iff, normalize_reason_codes-AreNew,
}
use auto_trading_v.Strategies.Decisions.{signal_of, decided, evaluate-decide}
use auto_trading_v.Strategies.Exits.{Leaves, evaluate_position_exit_total}

abbrev strict_entry : StrategyDefinition
strict_entry = record {
  strategy_id = 0x10c3fbc47db059809f858fbfc944a26c;
  strategy_version = codes "v1";
  source_filter_set_id = strict_filter.filter_set_id;
  source_evaluation_version = strict_filter.evaluation_version;
  observation_only = false;
}

evaluate-decide_example :
    (new_signal (signal_of sample_evaluation.0) ≡ ok (signal_of sample_evaluation.0))
    × (decide (signal_of sample_evaluation.0) strict_entry
        ≡ ok (decided strict_entry sample_evaluation.0))
    × (((decided strict_entry sample_evaluation.0).action ≡ enter_long)
        ↔ (strict_entry.observation_only ≡ false)
          × Passes strict_filter.mode strict_filter.minimum_score sample_evaluation.0.checks
              sample_evaluation.0.score)
evaluate-decide_example =
    evaluate-decide sample_input strict_filter strict_entry sample_evaluation.0 sample_evaluation.1
      refl refl refl

abbrev two_codes : List Text
two_codes = codes "A" ∷ codes "B_2" ∷ []

abbrev three_codes : List Text
three_codes = codes "A" ∷ codes "B_2" ∷ codes "A" ∷ []

normalize_reason_codes_iff_example :
    (normalize_reason_codes true none false two_codes ≡ ok two_codes)
    ↔ (two_codes ≡ two_codes) × AreNew [] two_codes × (is_empty two_codes ≡ false)
normalize_reason_codes_iff_example = normalize_reason_codes_iff two_codes two_codes

three_normalized : normalize_reason_codes true (some 16) true three_codes ≡ ok two_codes
unfolding normalize_reason_codes normalize_from is_reason_code codes_eq
three_normalized = refl

normalize_reason_codes-AreNew_example :
    AreNew [] two_codes × (normalize_reason_codes true none true two_codes ≡ ok two_codes)
normalize_reason_codes-AreNew_example =
    normalize_reason_codes-AreNew true (some 16) three_codes two_codes three_normalized

abbrev fixed_position_exit : PositionExitPolicy
fixed_position_exit = record {
  stop_loss_rate = record { coefficient = negsuc 4; scale = 2 };
  take_profit_rate = record { coefficient = pos 10; scale = 2 };
  maximum_holding_duration = 21600000000;
}

abbrev cents : ℕ → Decimal
cents n = record { coefficient = pos n; scale = 2 }

evaluate_position_exit_total_example :
    (x : PositionExitEvaluation) × (evaluate_position_exit
        (cents 1275)
        (cents 1300)
        100
        200
        fixed_position_exit
      ≡ ok x)
    × ((x.action ≡ exit_long) ↔ Leaves (cents 1275) (cents 1300) 100 200 fixed_position_exit)
    × ((x.action ≡ exit_long) ⊎ (x.action ≡ skip))
evaluate_position_exit_total_example =
    evaluate_position_exit_total (cents 1275) (cents 1300) 100 200 fixed_position_exit (omega arith)
