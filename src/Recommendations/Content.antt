-- ===== src/Recommendations/Content.antt =====
-- domain/recommendations/models.py: the key and the digest of an input, as SHA-256 of canonical JSON
-- (domain/feature_snapshots/serialization.py), and the contract of a row.
use auto_trading_v.Prelude.{
  ℕ, zero, suc, ◌/◌, ◌%◌, ◌^◌, false, not, Option, none, some, List, [], ◌∷◌, ◌++◌, map, leb, ◌==◌,
  codes_eq, if◌then◌else◌, Result, ok, raise_if, ◌>>=◌, ◌>>◌,
}
use auto_trading_v.Prelude.Int.{ℤ, pos, magnitude, with_sign, ltb_ℤ}
use auto_trading_v.Decimals.{Decimal, fix, is_zero}
use auto_trading_v.Text.{Text, codes, digit, decimal, uuid_text}
use auto_trading_v.Recommendations.{
  RecommendationPlan, RecommendationInput, disposition_text, RecommendationError,
  valid_until_not_later, key_mismatch, digest_mismatch,
}

-- Decimal.normalize: no zeros at the end of the fraction.
unfoldable pub without_zeros : ℤ → ℕ → Decimal
without_zeros c zero = record { coefficient = c; scale = 0 }
without_zeros c (suc s) =
    let shorter = without_zeros (with_sign c (magnitude c / 10)) s in
    if magnitude c % 10 == 0 then shorter else record { coefficient = c; scale = suc s }

-- The last k decimal digits of n.
unfoldable pub padded : ℕ → ℕ → Text
unfolding digit
padded zero n = []
padded (suc k) n = padded k (n / 10) ++ digit (n % 10) ∷ []

-- format(value, "f")
unfoldable pub format_fixed : Decimal → Text
unfolding decimal padded
format_fixed d =
    let sign = if ltb_ℤ d.coefficient (pos 0) then b'-' ∷ [] else [] in
    let m = magnitude d.coefficient in
    let fraction = if d.scale == 0 then [] else b'.' ∷ padded d.scale (m % 10 ^ d.scale) in
    sign ++ (decimal (m / 10 ^ d.scale) ++ fraction)

-- plans.py: _decimal
unfoldable pub decimal_text : Decimal → Text
unfolding is_zero fix without_zeros format_fixed
decimal_text d =
    let rounded = fix 28 d.coefficient d.scale in
    if is_zero d then codes "0" else format_fixed (without_zeros rounded.coefficient rounded.scale)

-- json.dumps of a text without characters that JSON escapes
abbrev pub quoted : Text → Text
quoted t = 34 ∷ (t ++ 34 ∷ [])

abbrev pub joined : List Text → Text
joined [] = []
joined (x ∷ []) = x
joined (x ∷ y ∷ ys) = x ++ b',' ∷ joined (y ∷ ys)

abbrev pub json_list : List Text → Text
json_list ts = b'[' ∷ (joined (map quoted ts) ++ b']' ∷ [])

-- An object whose keys are given in their order.
abbrev pub json_object : List (Text × Text) → Text
json_object es = b'{' ∷ (joined (map (λ e. quoted e.0 ++ b':' ∷ e.1) es) ++ b'}' ∷ [])

-- canonical_json(identity), in recommendation_key
unfoldable pub identity_text : RecommendationInput → Text
unfolding uuid_text
identity_text i = json_object (
    (codes "feature_snapshot_id", quoted (uuid_text i.feature_snapshot_id))
    ∷ (codes "generator_code", quoted i.generator_code)
    ∷ (codes "generator_version", quoted i.generator_version)
    ∷ [])

-- `timestamp_text` is UtcTimestamp(value).serialize(), datetime.isoformat of the standard library;
-- `sha256` is hashlib.sha256(text.encode("utf-8")).hexdigest().
module _ (timestamp_text : ℕ → Text) (sha256 : Text → Text) where
  -- RecommendationPlan.as_json, in canonical JSON
  unfoldable pub plan_json : Option RecommendationPlan → Text
  unfolding decimal_text
  plan_json none = codes "null"
  plan_json (some p) = json_object (
      (codes "confidence", quoted (decimal_text p.confidence))
      ∷ (codes "currency", quoted p.currency)
      ∷ (codes "entry_price_high", quoted (decimal_text p.entry_price_high))
      ∷ (codes "entry_price_low", quoted (decimal_text p.entry_price_low))
      ∷ (codes "expected_holding_trading_days", decimal p.expected_holding_trading_days)
      ∷ (codes "expected_value_rate", quoted (decimal_text p.expected_value_rate))
      ∷ (codes "reward_risk_ratio", quoted (decimal_text p.reward_risk_ratio))
      ∷ (codes "stop_price", quoted (decimal_text p.stop_price))
      ∷ (codes "stop_probability", quoted (decimal_text p.stop_probability))
      ∷ (codes "target_price", quoted (decimal_text p.target_price))
      ∷ (codes "target_probability", quoted (decimal_text p.target_probability))
      ∷ (codes "upside_probability", quoted (decimal_text p.upside_probability))
      ∷ (codes "valid_until", quoted (timestamp_text p.valid_until))
      ∷ [])

  -- recommendation_content_digest
  unfoldable pub recommendation_content_digest : RecommendationInput → Text
  unfolding plan_json
  recommendation_content_digest i = sha256 (
      json_object (
        (codes "disposition", quoted (disposition_text i.disposition))
        ∷ (codes "invalidation_codes", json_list i.invalidation_codes)
        ∷ (codes "plan", plan_json i.plan)
        ∷ (codes "reason_codes", json_list i.reason_codes)
        ∷ (codes "risk_codes", json_list i.risk_codes)
        ∷ []))

-- recommendation_key
unfoldable pub recommendation_key : (Text → Text) → RecommendationInput → Text
unfolding identity_text
recommendation_key sha256 i = codes "recommendation:v1:" ++ sha256 (identity_text i)

-- validate_generated_at
unfoldable pub validate_generated_at :
    RecommendationInput → ℕ → Result RecommendationError (Unit {0})
validate_generated_at i generated_at =
    raise_if (elim i.plan [ none ↦ false | some p ↦ leb p.valid_until generated_at ])
      valid_until_not_later

-- Recommendation; recorded_at is the database's.
pub record Recommendation : Type 0 where
  pub recommendation_id : ℕ
  pub recommendation_key : Text
  pub content_digest : Text
  pub recommendation_input : RecommendationInput
  pub generated_at : ℕ

module _ (timestamp_text : ℕ → Text) (sha256 : Text → Text) where
  -- NewRecommendation.__post_init__
  unfoldable pub new_recommendation : Recommendation → Result RecommendationError Recommendation
  unfolding validate_generated_at recommendation_key recommendation_content_digest
  new_recommendation r = do
    valid ← validate_generated_at r.recommendation_input r.generated_at
    raise_if
        (not (codes_eq r.recommendation_key (recommendation_key sha256 r.recommendation_input)))
        key_mismatch
    raise_if
        (not (
          codes_eq r.content_digest
            (recommendation_content_digest timestamp_text sha256 r.recommendation_input)))
        digest_mismatch
    ok r
