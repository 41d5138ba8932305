-- ===== src/Recommendations/Service.antt =====
-- application/services/recommendation.py: the service that creates recommendations, over the tables of
-- feature snapshots and recommendations (adapters/persistence).
use auto_trading_v.Prelude.{
  ℕ, Bool, false, ◌&&◌, ◌||◌, not, Option, none, some, List, [], ◌∷◌, ◌++◌, any, find_first, ltb,
  ◌==◌, codes_eq, if◌then◌else◌, Result, ok, raise, raise_if, or_raise, map_error, ◌>>=◌, ◌>>◌,
}
use auto_trading_v.Text.{Text}
use auto_trading_v.Scoring.{FeatureQualityStatus, is_ready}
use auto_trading_v.Recommendations.{actionable, RecommendationInput, RecommendationError}
use auto_trading_v.Recommendations.Content.{
  validate_generated_at, recommendation_key, recommendation_content_digest, Recommendation,
  new_recommendation,
}

-- What the service reads of a FeatureSnapshot.
pub record FeatureSnapshot : Type 0 where
  pub feature_snapshot_id : ℕ
  pub as_of : ℕ
  pub horizon : ℕ
  pub quality_status : FeatureQualityStatus

pub record Tables : Type 0 where
  pub feature_snapshots : List FeatureSnapshot
  pub recommendations : List Recommendation

pub data SourceRejection : Type 0 where
  source_id_mismatch generated_before_source source_not_ready horizon_exceeded : SourceRejection

pub data CreationError : Type 0 where
  validation_failed : RecommendationError → CreationError
  source_not_found : ℕ → CreationError
  source_rejected : SourceRejection → CreationError
  recommendation_conflict : Text → CreationError
  race_unresolved : CreationError

pub data RecommendationCreationOutcome : Type 0 where
  created already_exists : RecommendationCreationOutcome

-- RecommendationCreationResult
abbrev pub RecommendationCreationResult : Type 0
RecommendationCreationResult = RecommendationCreationOutcome × Recommendation

-- feature_snapshots.get_by_id
abbrev pub get_by_id : List FeatureSnapshot → ℕ → Option FeatureSnapshot
get_by_id table k = find_first (λ x. x.feature_snapshot_id == k) table

-- recommendations.get_by_recommendation_key
unfoldable pub get_by_recommendation_key : List Recommendation → Text → Option Recommendation
unfolding codes_eq
get_by_recommendation_key table k = find_first (λ r. codes_eq r.recommendation_key k) table

-- The unique keys: the identifier, the key, and the identity in three columns.
unfoldable pub same_recommendation : Recommendation → Recommendation → Bool
unfolding codes_eq
same_recommendation r q =
    q.recommendation_id == r.recommendation_id
    || (codes_eq q.recommendation_key r.recommendation_key
        || q.recommendation_input.feature_snapshot_id == r.recommendation_input.feature_snapshot_id
          && (codes_eq q.recommendation_input.generator_code r.recommendation_input.generator_code
              && codes_eq q.recommendation_input.generator_version
                  r.recommendation_input.generator_version))

-- A plan's holding period is longer than the snapshot's horizon.
abbrev pub exceeds_horizon : RecommendationInput → ℕ → Bool
exceeds_horizon i horizon = elim i.plan [
  | none ↦ false
  | some p ↦ ltb horizon p.expected_holding_trading_days
]

-- RecommendationCreationService._validate_source
unfoldable pub validate_source :
    Option FeatureSnapshot → RecommendationInput → ℕ → Result CreationError (Unit {0})
validate_source found i generated_at = do
  source ← or_raise found (source_not_found i.feature_snapshot_id)
  raise_if (not (source.feature_snapshot_id == i.feature_snapshot_id))
      (source_rejected source_id_mismatch)
  raise_if (ltb generated_at source.as_of) (source_rejected generated_before_source)
  raise_if (actionable i.disposition && not (is_ready source.quality_status))
      (source_rejected source_not_ready)
  raise_if (exceeds_horizon i source.horizon) (source_rejected horizon_exceeded)

-- RecommendationCreationService._existing_result
unfoldable pub existing_result :
    Recommendation → Text → Result CreationError RecommendationCreationResult
unfolding codes_eq
existing_result existing digest = do
  raise_if (not (codes_eq existing.content_digest digest))
      (recommendation_conflict existing.recommendation_key)
  ok (already_exists, existing)

-- RecommendationCreationService._resolve_unique_race
unfoldable pub resolve_unique_race :
    List Recommendation → Text → Text → Result CreationError RecommendationCreationResult
unfolding get_by_recommendation_key existing_result
resolve_unique_race table key digest = do
  existing ← or_raise (get_by_recommendation_key table key) race_unresolved
  existing_result existing digest

-- How the first `with` block ends.
pub data Attempt : Type 0 where
  found : RecommendationCreationResult → Attempt
  inserted : Recommendation → Attempt
  raced : Attempt

module _ (timestamp_text : ℕ → Text) (sha256 : Text → Text) where
  -- The first `with` block and the check before it. It reads `seen`; another client may commit before
  -- the insert, which meets the rows `at_insert`.
  unfoldable pub attempt :
      ℕ → ℕ → RecommendationInput → Tables → List Recommendation → Result CreationError Attempt
  unfolding validate_generated_at validate_source recommendation_key recommendation_content_digest
      get_by_recommendation_key existing_result new_recommendation same_recommendation
  attempt generated_at new_id i seen at_insert = do
    valid ← map_error validation_failed (validate_generated_at i generated_at)
    accepted ←
        validate_source (get_by_id seen.feature_snapshots i.feature_snapshot_id) i generated_at
    let key = recommendation_key sha256 i
    let digest = recommendation_content_digest timestamp_text sha256 i
    elim (get_by_recommendation_key seen.recommendations key) [
      | some existing ↦ existing_result existing digest >>= λ result. ok (found result)
      | none ↦
          map_error validation_failed (
            new_recommendation timestamp_text sha256 (record {
              recommendation_id = new_id;
              recommendation_key = key;
              content_digest = digest;
              recommendation_input = i;
              generated_at = generated_at;
            }))
          >>= λ row. if any (same_recommendation row) at_insert then ok raced else ok (inserted row)
    ]

  -- The rest of create, with the rows afterwards. After a race, the second transaction reads `later`.
  abbrev pub conclude :
      Result CreationError Attempt
      → RecommendationInput
      → List Recommendation
      → List Recommendation
      → Result CreationError RecommendationCreationResult × List Recommendation
  conclude (raise e) i at_insert later = (raise e, at_insert)
  conclude (ok (found result)) i at_insert later = (ok result, at_insert)
  conclude (ok (inserted row)) i at_insert later = (ok (created, row), at_insert ++ row ∷ [])
  conclude (ok raced) i at_insert later = (
    resolve_unique_race later (recommendation_key sha256 i)
        (recommendation_content_digest timestamp_text sha256 i),
    later,
  )

  -- RecommendationCreationService.create
  unfoldable pub create :
      ℕ
      → ℕ
      → RecommendationInput
      → Tables
      → List Recommendation
      → List Recommendation
      → Result CreationError RecommendationCreationResult × List Recommendation
  unfolding attempt resolve_unique_race
  create generated_at new_id i seen at_insert later =
      conclude (attempt generated_at new_id i seen at_insert) i at_insert later
