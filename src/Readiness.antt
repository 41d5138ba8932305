-- ===== src/Readiness.antt =====
-- domain/training_readiness: percentages with six decimals, and the readiness of a calibration
-- dataset from its counts (evaluation.py, outcomes.py, models.py).
pub mod Thresholds
mod Tests
use auto_trading_v.Prelude.{
  ℕ, ◌*◌, ◌^◌, Bool, true, false, ◌&&◌, ◌||◌, not, Option, none, some, List, [], ◌∷◌, ltb, ◌==◌,
  if◌then◌else◌, Result, ok, raise, raise_if, or_raise, ◌>>=◌, ◌>>◌,
}
use auto_trading_v.Text.{Text, codes}
use auto_trading_v.Decimals.{Decimal, of_ℕ, mul, div, quantize}
use auto_trading_v.Primitives.{default_precision}

pub data PercentageStatus : Type 0 where
  derived zero_denominator : PercentageStatus

-- PercentageFact of two counts; the percentage is the decimal whose text the fact holds.
pub record PercentageFact : Type 0 where
  pub count : ℕ
  pub denominator : ℕ
  pub percentage : Option Decimal
  pub status : PercentageStatus

pub data PercentageError : Type 0 where
  inputs_invalid not_representable : PercentageError

-- The percentage before it is rounded to six decimals.
unfoldable pub ratio : ℕ → ℕ → Decimal
ratio count denominator =
    div default_precision (mul default_precision (of_ℕ count) (of_ℕ 100)) (of_ℕ denominator)

-- calculate_percentage
unfoldable pub calculate_percentage : ℕ → ℕ → Result PercentageError PercentageFact
calculate_percentage count denominator = do
  raise_if (ltb denominator count) inputs_invalid
  if denominator == 0
      then ok (record {
        count = count;
        denominator = denominator;
        percentage = none;
        status = zero_denominator;
      })
      else (or_raise (quantize default_precision 6 (ratio count denominator)) not_representable
          >>= λ percentage. ok (record {
            count = count;
            denominator = denominator;
            percentage = some percentage;
            status = derived;
          }))

-- The counts of IncludedDatasetFacts that readiness rests on, and its two flags.
pub record IncludedDatasetFacts : Type 0 where
  pub total_item_count : ℕ
  pub unique_source_session_count : ℕ
  pub retrospective_replay_item_count : ℕ
  pub retrospective_replay_source_session_count : ℕ
  pub prospective_item_count : ℕ
  pub prospective_source_session_count : ℕ
  pub positive_count : ℕ
  pub not_positive_count : ℕ
  pub replay_positive_count : ℕ
  pub replay_not_positive_count : ℕ
  pub prospective_positive_count : ℕ
  pub prospective_not_positive_count : ℕ
  pub null_score_count : ℕ
  pub invalid_score_count : ℕ
  pub duplicate_source_item_count : ℕ
  pub canonical_order_valid : Bool
  pub item_content_digest_valid : Bool

pub data LegacyCalibrationReadiness : Type 0 where
  data_ready data_insufficient class_imbalanced prospective_insufficient source_ineligible :
      LegacyCalibrationReadiness

pub record LegacyCalibrationReadinessResult : Type 0 where
  pub status : LegacyCalibrationReadiness
  pub blockers : List Text

-- The four tests of evaluate_legacy_calibration_readiness. `usable` is whether the dataset's status
-- is READY or EMPTY.
unfoldable pub source_invalid : Bool → IncludedDatasetFacts → Bool
source_invalid usable f =
    not usable
    || (not f.canonical_order_valid
        || (not f.item_content_digest_valid
            || (ltb 0 f.null_score_count
                || (ltb 0 f.invalid_score_count || ltb 0 f.duplicate_source_item_count))))

unfoldable pub sample_too_small : IncludedDatasetFacts → Bool
sample_too_small f =
    ltb f.total_item_count 300
    || (ltb f.unique_source_session_count 60
        || (ltb f.retrospective_replay_item_count 150
            || ltb f.retrospective_replay_source_session_count 20))

unfoldable pub classes_too_small : IncludedDatasetFacts → Bool
classes_too_small f =
    ltb f.positive_count 60
    || (ltb f.not_positive_count 60
        || (ltb f.replay_positive_count 30 || ltb f.replay_not_positive_count 30))

unfoldable pub prospective_too_small : IncludedDatasetFacts → Bool
prospective_too_small f =
    ltb f.prospective_item_count 100
    || (ltb f.prospective_source_session_count 20
        || (ltb f.prospective_positive_count 20 || ltb f.prospective_not_positive_count 20))

-- evaluate_legacy_calibration_readiness
unfoldable pub evaluate_legacy_calibration_readiness :
    Bool → IncludedDatasetFacts → LegacyCalibrationReadinessResult
evaluate_legacy_calibration_readiness usable f =
    if source_invalid usable f
    then record {
      status = source_ineligible;
      blockers = codes "LEGACY_SOURCE_CONTRACT_INVALID" ∷ [];
    }
    else if sample_too_small f
    then record {
      status = data_insufficient;
      blockers = codes "LEGACY_SAMPLE_OR_SESSION_THRESHOLD_NOT_MET" ∷ [];
    }
    else if classes_too_small f
    then record {
      status = class_imbalanced;
      blockers = codes "LEGACY_CLASS_THRESHOLD_NOT_MET" ∷ [];
    }
    else if prospective_too_small f
    then record {
      status = prospective_insufficient;
      blockers = codes "LEGACY_PROSPECTIVE_THRESHOLD_NOT_MET" ∷ [];
    }
    else record { status = data_ready; blockers = [] }
