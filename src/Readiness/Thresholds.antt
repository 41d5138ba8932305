-- ===== src/Readiness/Thresholds.antt =====
-- evaluate_legacy_calibration_readiness (domain/training_readiness/evaluation.py).
use auto_trading_v.Prelude.{ℕ, ◌≤◌, ◌≡◌, ◌↔◌, refl, true, false, ◌||◌, Bool, [], arith, ltb}
use auto_trading_v.Readiness.{
  IncludedDatasetFacts, data_ready, source_invalid, sample_too_small, classes_too_small,
  prospective_too_small, evaluate_legacy_calibration_readiness,
}

-- The source is in order.
pub record IsSound (dataset_usable : Bool) (f : IncludedDatasetFacts) : Type 0 where
  pub usable : dataset_usable ≡ true
  pub canonical_order : f.canonical_order_valid ≡ true
  pub digest : f.item_content_digest_valid ≡ true
  pub null_scores : f.null_score_count ≡ 0
  pub invalid_scores : f.invalid_score_count ≡ 0
  pub duplicates : f.duplicate_source_item_count ≡ 0

-- Every count reaches its threshold.
pub record IsLarge (f : IncludedDatasetFacts) : Type 0 where
  pub items : 300 ≤ f.total_item_count
  pub sessions : 60 ≤ f.unique_source_session_count
  pub replay_items : 150 ≤ f.retrospective_replay_item_count
  pub replay_sessions : 20 ≤ f.retrospective_replay_source_session_count
  pub positive : 60 ≤ f.positive_count
  pub not_positive : 60 ≤ f.not_positive_count
  pub replay_positive : 30 ≤ f.replay_positive_count
  pub replay_not_positive : 30 ≤ f.replay_not_positive_count
  pub prospective_items : 100 ≤ f.prospective_item_count
  pub prospective_sessions : 20 ≤ f.prospective_source_session_count
  pub prospective_positive : 20 ≤ f.prospective_positive_count
  pub prospective_not_positive : 20 ≤ f.prospective_not_positive_count

tests-IsSound :
    (usable : Bool) (f : IncludedDatasetFacts) → source_invalid usable f ≡ false → IsSound usable f
unfolding source_invalid
tests-IsSound usable f h = record {
  usable = ground arith;
  canonical_order = ground arith;
  digest = ground arith;
  null_scores = ground arith;
  invalid_scores = ground arith;
  duplicates = ground arith;
}

IsSound-sound :
    (usable : Bool) (f : IncludedDatasetFacts) → IsSound usable f → source_invalid usable f ≡ false
unfolding source_invalid
IsSound-sound usable f h =
    rw (h.usable, h.canonical_order, h.digest, h.null_scores, h.invalid_scores, h.duplicates) refl

tests-IsLarge :
    (f : IncludedDatasetFacts)
    → sample_too_small f ≡ false
    → classes_too_small f ≡ false
    → prospective_too_small f ≡ false
    → IsLarge f
unfolding sample_too_small classes_too_small prospective_too_small
tests-IsLarge f a b c = record {
  items = ground arith;
  sessions = ground arith;
  replay_items = ground arith;
  replay_sessions = ground arith;
  positive = ground arith;
  not_positive = ground arith;
  replay_positive = ground arith;
  replay_not_positive = ground arith;
  prospective_items = ground arith;
  prospective_sessions = ground arith;
  prospective_positive = ground arith;
  prospective_not_positive = ground arith;
}

four :
    (a b c d m n o p : ℕ)
    → m ≤ a
    → n ≤ b
    → o ≤ c
    → p ≤ d
    → (ltb a m || (ltb b n || (ltb c o || ltb d p))) ≡ false
four a b c d m n o p ha hb hc hd = ground arith

IsLarge-large :
    (f : IncludedDatasetFacts)
    → IsLarge f
    → (sample_too_small f ≡ false)
      × (classes_too_small f ≡ false)
      × (prospective_too_small f ≡ false)
unfolding sample_too_small classes_too_small prospective_too_small
IsLarge-large f h = (
  four f.total_item_count f.unique_source_session_count f.retrospective_replay_item_count
      f.retrospective_replay_source_session_count 300 60 150 20 h.items h.sessions h.replay_items
      h.replay_sessions,
  four f.positive_count f.not_positive_count f.replay_positive_count f.replay_not_positive_count 60
      60 30 30 h.positive h.not_positive h.replay_positive h.replay_not_positive,
  four f.prospective_item_count f.prospective_source_session_count f.prospective_positive_count
      f.prospective_not_positive_count 100 20 20 20 h.prospective_items h.prospective_sessions
      h.prospective_positive h.prospective_not_positive,
)

ready-tests :
    (usable : Bool) (f : IncludedDatasetFacts)
    → (evaluate_legacy_calibration_readiness usable f).status ≡ data_ready
    → (source_invalid usable f ≡ false)
      × (sample_too_small f ≡ false)
      × (classes_too_small f ≡ false)
      × (prospective_too_small f ≡ false)
unfolding evaluate_legacy_calibration_readiness
ready-tests usable f h = (ground arith, ground arith, ground arith, ground arith)

blockers-ready :
    (usable : Bool) (f : IncludedDatasetFacts)
    → ((evaluate_legacy_calibration_readiness usable f).blockers ≡ [])
      ↔ ((evaluate_legacy_calibration_readiness usable f).status ≡ data_ready)
unfolding evaluate_legacy_calibration_readiness
blockers-ready usable f = ground arith

-- A calibration dataset is reported ready exactly when its source is in order and each of its
-- twelve counts reaches its threshold, and the list of blockers is empty exactly when it is
-- reported ready.
pub readiness_iff :
    (usable : Bool) (f : IncludedDatasetFacts)
    → (((evaluate_legacy_calibration_readiness usable f).status ≡ data_ready)
        ↔ IsSound usable f × IsLarge f)
      × (((evaluate_legacy_calibration_readiness usable f).blockers ≡ [])
          ↔ ((evaluate_legacy_calibration_readiness usable f).status ≡ data_ready))
unfolding evaluate_legacy_calibration_readiness
readiness_iff usable f = (
  (
    λ h.
        let (a, b, c, d) = ready-tests usable f h in
        (tests-IsSound usable f a, tests-IsLarge f b c d),
    λ (sound, large).
        (let (b, c, d) = IsLarge-large f large in rw (IsSound-sound usable f sound, b, c, d) refl),
  ),
  blockers-ready usable f,
)
