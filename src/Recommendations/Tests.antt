-- ===== src/Recommendations/Tests.antt =====
-- A recommendation of one snapshot.
use auto_trading_v.Prelude.{◌≡◌, ◌≢◌, ◌⊎◌, raise, refl, inr, none, some, [], ◌∷◌, ok, codes_eq}
use auto_trading_v.Prelude.Int.{pos}
use auto_trading_v.Decimals.{of_ℕ, is_positive}
use auto_trading_v.Text.{codes, decimal, uuid_text}
use auto_trading_v.Primitives.{usd}
use auto_trading_v.Scoring.{ready}
use auto_trading_v.Strategies.{is_reason_code}
use auto_trading_v.Recommendations.{
  recommend, RecommendationPlan, RecommendationInput, new_plan, new_input, canonical_codes,
}
use auto_trading_v.Recommendations.Content.{
  validate_generated_at, decimal_text, recommendation_key, Recommendation,
}
use auto_trading_v.Recommendations.Service.{
  already_exists, recommendation_conflict, get_by_recommendation_key, validate_source, Tables,
  created, create,
}
use auto_trading_v.Recommendations.Calls.{key_of, digest_of, row_of, Accepted}
use auto_trading_v.Recommendations.Repeats.{create_again}
use auto_trading_v.Recommendations.Tables.{IsStored, create-IsStored}
use auto_trading_v.Recommendations.Codes.{CodesOutcome, canonical_codes-CodesOutcome}
use auto_trading_v.Recommendations.Identity.{recommendation_key-injective}

abbrev long_plan : RecommendationPlan
long_plan = record {
  currency = usd;
  entry_price_low = of_ℕ 99;
  entry_price_high = of_ℕ 100;
  target_price = of_ℕ 110;
  stop_price = of_ℕ 95;
  expected_holding_trading_days = 3;
  upside_probability = record { coefficient = pos 60; scale = 2 };
  target_probability = record { coefficient = pos 50; scale = 2 };
  stop_probability = record { coefficient = pos 30; scale = 2 };
  expected_value_rate = record { coefficient = pos 10; scale = 3 };
  reward_risk_ratio = of_ℕ 2;
  confidence = record { coefficient = pos 5; scale = 1 };
  valid_until = 100;
}

abbrev raw : RecommendationInput
raw = record {
  feature_snapshot_id = 7;
  generator_code = codes " gen.a ";
  generator_version = codes "v1";
  disposition = recommend;
  plan = some long_plan;
  reason_codes = codes "TREND" ∷ codes "MOMENTUM" ∷ [];
  risk_codes = codes "GAP" ∷ [];
  invalidation_codes = codes "STOP" ∷ [];
}

abbrev input : RecommendationInput
input = record raw {
  generator_code = codes "gen.a";
  reason_codes = codes "MOMENTUM" ∷ codes "TREND" ∷ [];
}

plan_ok : new_plan long_plan ≡ ok long_plan
unfolding new_plan codes_eq is_positive
plan_ok = refl

input_ok : new_input raw ≡ ok input
unfolding new_input is_reason_code codes_eq
input_ok = refl

rate_text : decimal_text (record { coefficient = pos 1050; scale = 3 }) ≡ codes "1.05"
unfolding decimal_text
rate_text = refl

key_text :
    recommendation_key (λ t. t) input
    ≡ codes
        "recommendation:v1:{\"feature_snapshot_id\":\"00000000-0000-0000-0000-000000000007\",\"generator_code\":\"gen.a\",\"generator_version\":\"v1\"}"
unfolding recommendation_key
key_text = refl

recommendation_key-injective_example :
    (uuid_text 7 ≡ uuid_text 7) × (codes "gen.a" ≡ codes "gen.a") × (codes "v1" ≡ codes "v1")
recommendation_key-injective_example =
    recommendation_key-injective (λ t. t) raw raw {i = input} {j = input} input_ok input_ok (λ e. e)
      refl

abbrev seen : Tables
seen = record {
  feature_snapshots =
      record { feature_snapshot_id = 7; as_of = 5; horizon = 5; quality_status = ready } ∷ [];
  recommendations = [];
}

abbrev row : Recommendation
row = row_of decimal (λ t. t) 10 1 input

stores : create decimal (λ t. t) 10 1 input seen [] [] ≡ (ok (created, row), row ∷ [])
unfolding create
stores = refl

accepts : Accepted decimal (λ t. t) 20 2 input seen (row ∷ [])
unfolding validate_generated_at validate_source
accepts = (refl, refl)

nothing : get_by_recommendation_key [] (key_of decimal (λ t. t) input) ≡ none
unfolding get_by_recommendation_key
nothing = refl

-- The second call read the tables before the first one committed.
create_again_example :
    (digest_of decimal (λ t. t) input ≡ digest_of decimal (λ t. t) input)
      × (create decimal (λ t. t) 20 2 input seen (row ∷ []) (row ∷ [])
          ≡ (ok (already_exists, row), row ∷ []))
    ⊎ (digest_of decimal (λ t. t) input ≢ digest_of decimal (λ t. t) input)
      × (create decimal (λ t. t) 20 2 input seen (row ∷ []) (row ∷ [])
          ≡ (raise (recommendation_conflict (key_of decimal (λ t. t) input)), row ∷ []))
create_again_example =
    create_again decimal (λ t. t) 10 20 1 2 input input seen seen [] [] stores refl accepts
      (inr nothing)

create-IsStored_example : IsStored decimal (λ t. t) (row ∷ [])
create-IsStored_example =
    create-IsStored decimal (λ t. t) 10 1 input seen [] [] (tt, tt) (tt, tt) stores

canonical_codes-CodesOutcome_example :
    CodesOutcome
      (codes "TREND" ∷ codes "MOMENTUM" ∷ [])
      (canonical_codes (codes "TREND" ∷ codes "MOMENTUM" ∷ []))
canonical_codes-CodesOutcome_example =
    canonical_codes-CodesOutcome (codes "TREND" ∷ codes "MOMENTUM" ∷ [])

sorts :
    canonical_codes (codes "TREND" ∷ codes "MOMENTUM" ∷ [])
    ≡ ok (codes "MOMENTUM" ∷ codes "TREND" ∷ [])
unfolding canonical_codes is_reason_code codes_eq
sorts = refl
