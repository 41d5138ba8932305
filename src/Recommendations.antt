-- ===== src/Recommendations.antt =====
-- domain/recommendations: codes (codes.py), plans (plans.py), the input, its key and its digest
-- (models.py); application/contracts/recommendations.py: the contract of a row.
pub mod Content
pub mod Service
pub mod Calls
mod Tests
pub mod Order
pub mod Codes
pub mod Identity
pub mod Tables
pub mod Repeats
use auto_trading_v.Prelude.{
  ℕ, zero, suc, ◌+◌, ◌/◌, ◌%◌, ◌^◌, Bool, true, false, ◌&&◌, ◌||◌, not, Option, none, some, List,
  [], ◌∷◌, ◌++◌, map, length, any, all, leb, ◌==◌, is_some, codes_eq, if◌then◌else◌, Result, ok,
  raise, raise_if, ◌>>=◌, ◌>>◌,
}
use auto_trading_v.Prelude.Int.{ℤ, pos, magnitude, with_sign, ltb_ℤ}
use auto_trading_v.Decimals.{Decimal, of_ℕ, fix, add, le_dec, lt_dec, is_zero, is_positive}
use auto_trading_v.Text.{Text, codes, digit, decimal, uuid_text}
use auto_trading_v.Primitives.{usd}
use auto_trading_v.Sessions.{drop_spaces, reverse}
use auto_trading_v.Strategies.{is_reason_code, contains, is_empty}
use auto_trading_v.Scoring.Ranks.{sorted, text_lt}

pub data RecommendationDisposition : Type 0 where
  recommend conditional watch : RecommendationDisposition
  no_recommendation data_insufficient market_risk : RecommendationDisposition

abbrev pub actionable : RecommendationDisposition → Bool
actionable recommend = true
actionable conditional = true
actionable watch = false
actionable no_recommendation = false
actionable data_insufficient = false
actionable market_risk = false

abbrev pub is_market_risk : RecommendationDisposition → Bool
is_market_risk market_risk = true
is_market_risk _ = false

abbrev pub disposition_text : RecommendationDisposition → Text
disposition_text recommend = codes "RECOMMEND"
disposition_text conditional = codes "CONDITIONAL"
disposition_text watch = codes "WATCH"
disposition_text no_recommendation = codes "NO_RECOMMENDATION"
disposition_text data_insufficient = codes "DATA_INSUFFICIENT"
disposition_text market_risk = codes "MARKET_RISK"

-- RecommendationValidationError
pub data RecommendationError : Type 0 where
  code_invalid code_repeated generator_code_invalid : RecommendationError
  plan_currency_invalid plan_prices_unordered probability_out_of_range : RecommendationError
  probabilities_exceed_one expected_value_not_positive reward_risk_not_positive :
      RecommendationError
  confidence_out_of_range plan_missing plan_not_allowed : RecommendationError
  reason_codes_missing risk_codes_missing : RecommendationError
  invalidation_codes_missing invalidation_codes_not_allowed : RecommendationError
  valid_until_not_later key_mismatch digest_mismatch : RecommendationError

-- len(values) != len(set(values))
abbrev pub is_repeated : List Text → Bool
is_repeated [] = false
is_repeated (c ∷ cs) = contains c cs || is_repeated cs

-- canonical_codes
unfoldable pub canonical_codes : List Text → Result RecommendationError (List Text)
unfolding sorted text_lt
canonical_codes values = do
  raise_if (not (all is_reason_code values)) code_invalid
  raise_if (is_repeated values) code_repeated
  ok (sorted text_lt values)

abbrev pub is_alphanumeric : ℕ → Bool
is_alphanumeric c =
    leb b'A' c && leb c b'Z' || (leb b'a' c && leb c b'z' || leb b'0' c && leb c b'9')

abbrev pub is_generator_char : ℕ → Bool
is_generator_char c = is_alphanumeric c || (c == b'_' || (c == b'.' || c == b'-'))

-- _GENERATOR_CODE_PATTERN
unfoldable pub is_generator_code : Text → Bool
is_generator_code [] = false
is_generator_code (c ∷ cs) = is_alphanumeric c && (all is_generator_char cs && leb (length cs) 63)

-- normalize_generator_code
unfoldable pub normalize_generator_code : Text → Result RecommendationError Text
unfolding is_generator_code
normalize_generator_code value = do
  let normalized = reverse (drop_spaces (reverse (drop_spaces value)))
  raise_if (not (is_generator_code normalized)) generator_code_invalid
  ok normalized

pub record RecommendationPlan : Type 0 where
  pub currency : Text
  pub entry_price_low : Decimal
  pub entry_price_high : Decimal
  pub target_price : Decimal
  pub stop_price : Decimal
  pub expected_holding_trading_days : ℕ
  pub upside_probability : Decimal
  pub target_probability : Decimal
  pub stop_probability : Decimal
  pub expected_value_rate : Decimal
  pub reward_risk_ratio : Decimal
  pub confidence : Decimal
  pub valid_until : ℕ

-- 0 <= value <= 1
abbrev pub in_unit : Decimal → Bool
in_unit v = le_dec (of_ℕ 0) v && le_dec v (of_ℕ 1)

-- RecommendationPlan.__post_init__
unfoldable pub new_plan : RecommendationPlan → Result RecommendationError RecommendationPlan
unfolding le_dec add
new_plan p = do
  raise_if (not (codes_eq p.currency usd)) plan_currency_invalid
  raise_if
      (not (
        lt_dec p.stop_price p.entry_price_low
        && (le_dec p.entry_price_low p.entry_price_high
            && lt_dec p.entry_price_high p.target_price)))
      plan_prices_unordered
  raise_if
      (not (
        in_unit p.upside_probability
        && (in_unit p.target_probability && in_unit p.stop_probability)))
      probability_out_of_range
  raise_if (lt_dec (of_ℕ 1) (add 28 p.target_probability p.stop_probability))
      probabilities_exceed_one
  raise_if (not (is_positive p.expected_value_rate)) expected_value_not_positive
  raise_if (not (is_positive p.reward_risk_ratio)) reward_risk_not_positive
  raise_if (not (in_unit p.confidence)) confidence_out_of_range
  ok p

pub record RecommendationInput : Type 0 where
  pub feature_snapshot_id : ℕ
  pub generator_code : Text
  pub generator_version : Text
  pub disposition : RecommendationDisposition
  pub plan : Option RecommendationPlan
  pub reason_codes : List Text
  pub risk_codes : List Text
  pub invalidation_codes : List Text

-- RecommendationInput.__post_init__
unfoldable pub new_input : RecommendationInput → Result RecommendationError RecommendationInput
unfolding canonical_codes normalize_generator_code
new_input i = do
  code ← normalize_generator_code i.generator_code
  version ← normalize_generator_code i.generator_version
  raise_if (actionable i.disposition && not (is_some i.plan)) plan_missing
  raise_if (not (actionable i.disposition) && is_some i.plan) plan_not_allowed
  reasons ← canonical_codes i.reason_codes
  risks ← canonical_codes i.risk_codes
  invalidations ← canonical_codes i.invalidation_codes
  raise_if (is_empty reasons) reason_codes_missing
  raise_if ((actionable i.disposition || is_market_risk i.disposition) && is_empty risks)
      risk_codes_missing
  raise_if (actionable i.disposition && is_empty invalidations) invalidation_codes_missing
  raise_if (not (actionable i.disposition) && not (is_empty invalidations))
      invalidation_codes_not_allowed
  ok (record i {
    generator_code = code;
    generator_version = version;
    reason_codes = reasons;
    risk_codes = risks;
    invalidation_codes = invalidations;
  })
