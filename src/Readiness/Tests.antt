-- ===== src/Readiness/Tests.antt =====
-- Facts of a dataset that is ready, and a percentage.
use auto_trading_v.Prelude.{◌≡◌, ◌↔◌, refl, true, some, [], ok}
use auto_trading_v.Prelude.Int.{pos, ◌*ℤ◌}
use auto_trading_v.Decimals.{mul, div, fix, quantize, half_even, excess}
use auto_trading_v.Readiness.{
  IncludedDatasetFacts, data_ready, evaluate_legacy_calibration_readiness, derived,
  calculate_percentage, ratio,
}
use auto_trading_v.Readiness.Thresholds.{IsSound, IsLarge, readiness_iff}

abbrev sample_facts : IncludedDatasetFacts
sample_facts = record {
  total_item_count = 400;
  unique_source_session_count = 80;
  retrospective_replay_item_count = 250;
  retrospective_replay_source_session_count = 50;
  prospective_item_count = 150;
  prospective_source_session_count = 30;
  positive_count = 210;
  not_positive_count = 190;
  replay_positive_count = 130;
  replay_not_positive_count = 120;
  prospective_positive_count = 80;
  prospective_not_positive_count = 70;
  null_score_count = 0;
  invalid_score_count = 0;
  duplicate_source_item_count = 0;
  canonical_order_valid = true;
  item_content_digest_valid = true;
}

readiness_iff_example :
    (((evaluate_legacy_calibration_readiness true sample_facts).status ≡ data_ready)
      ↔ IsSound true sample_facts × IsLarge sample_facts)
    × (((evaluate_legacy_calibration_readiness true sample_facts).blockers ≡ [])
        ↔ ((evaluate_legacy_calibration_readiness true sample_facts).status ≡ data_ready))
readiness_iff_example = readiness_iff true sample_facts

one_third :
    calculate_percentage 1 3
    ≡ ok (record {
      count = 1;
      denominator = 3;
      percentage = some (record { coefficient = pos 33333333; scale = 6 });
      status = derived;
    })
unfolding calculate_percentage ratio mul div fix quantize half_even excess ◌*ℤ◌
one_third = refl
