-- ===== src/Scoring.antt =====
-- domain/feature_scoring/scoring.py and the RelativeScore of models.py: percentiles of features over
-- a population, component scores and the overall score.
mod Tests
pub mod Ranks
pub mod Sorting
pub mod Ranking
pub mod Percentiles
pub mod Components
pub mod Averages
pub mod Population
use auto_trading_v.Prelude.Int.{pos}
use auto_trading_v.Prelude.{
  ℕ, zero, suc, ◌+◌, ◌-◌, Bool, true, false, not, ◌||◌, Option, none, some, List, [], ◌∷◌, ◌++◌,
  map, select, find_first, length, take, drop, sum_of, ◌==◌, if◌then◌else◌, Result, ok, raise,
  raise_if, or_raise, ◌>>=◌, ◌>>◌,
}
use auto_trading_v.Decimals.{Decimal, of_ℕ, add, sub, mul, div, eqb, le_dec, lt_dec, quantize}
use auto_trading_v.Filters.{sum_from}

-- The numbers of REQUIRED_FEATURES.
pub data Feature : Type 0 where
  one_day_return five_day_return twenty_day_return : Feature
  close_vs_sma5 close_vs_sma10 close_vs_sma20 : Feature
  distance_from_prior_20d_high distance_from_prior_20d_low : Feature
  latest_gap_return latest_intraday_return : Feature
  latest_range_rate realized_volatility_20d atr14_rate : Feature
  volume_ratio_5_to_20 latest_volume_to_avg20 average_dollar_volume_20 : Feature
  last_close : Feature

pub data FeatureQualityStatus : Type 0 where
  ready degraded : FeatureQualityStatus

abbrev pub is_ready : FeatureQualityStatus → Bool
is_ready ready = true
is_ready degraded = false

-- An item of the population: its key, its ValidatedTechnicalFeatures and its quality.
pub record Candidate : Type 0 where
  pub key : ℕ
  pub values : Feature → Option Decimal
  pub quality : FeatureQualityStatus

pub data ScoringError : Type 0 where
  missing_value : Feature → ScoringError
  missing_percentile : Feature → ScoringError
  relative_score_out_of_range relative_score_not_representable : ScoringError

-- DECIMAL_CONTEXT
abbrev pub scoring_precision : ℕ
scoring_precision = 38

-- sorted(values.items(), key=lambda pair: pair[1])
unfoldable pub insert_by_value : ℕ × Decimal → List (ℕ × Decimal) → List (ℕ × Decimal)
unfolding le_dec
insert_by_value e [] = e ∷ []
insert_by_value e (f ∷ fs) = if le_dec e.1 f.1 then e ∷ f ∷ fs else f ∷ insert_by_value e fs

unfoldable pub sort_by_value : List (ℕ × Decimal) → List (ℕ × Decimal)
unfolding insert_by_value
sort_by_value [] = []
sort_by_value (e ∷ es) = insert_by_value e (sort_by_value es)

-- end - start: how many of the following values equal the one at start.
unfoldable pub ties : Decimal → List (ℕ × Decimal) → ℕ
unfolding eqb
ties v [] = 0
ties v (e ∷ es) = let more = suc (ties v es) in if eqb e.1 v then more else 0

-- The percentile of the positions from start to end, both counted from 0.
unfoldable pub midrank_percentile : ℕ → ℕ → ℕ → Decimal
unfolding add sub div
midrank_percentile start end size =
    div scoring_precision
      (sub scoring_precision
        (div scoring_precision (add scoring_precision (of_ℕ (start + 1)) (of_ℕ (end + 1))) (of_ℕ 2))
        (of_ℕ 1))
      (of_ℕ (size - 1))

-- The loop over the groups of equal values. The fuel is the number of values left.
unfoldable pub assign_percentiles : ℕ → ℕ → ℕ → List (ℕ × Decimal) → List (ℕ × Decimal)
unfolding ties midrank_percentile
assign_percentiles zero start size left = []
assign_percentiles (suc fuel) start size [] = []
assign_percentiles (suc fuel) start size (e ∷ es) =
    let n = ties e.1 es in
    let p = midrank_percentile start (start + n) size in
    map (λ f. (f.0, p)) (e ∷ take n es) ++ assign_percentiles fuel (start + n + 1) size (drop n es)

-- Decimal("0.5")
abbrev pub half : Decimal
half = record { coefficient = pos 5; scale = 1 }

-- ascending_midrank_percentiles
unfoldable pub ascending_midrank_percentiles : List (ℕ × Decimal) → List (ℕ × Decimal)
unfolding sort_by_value assign_percentiles
ascending_midrank_percentiles [] = []
ascending_midrank_percentiles (e ∷ []) = (e.0, half) ∷ []
ascending_midrank_percentiles (e ∷ f ∷ es) =
    let values = e ∷ f ∷ es in
    assign_percentiles (length values) 0 (length values) (sort_by_value values)

-- {key: candidate.values[feature] for key, candidate in population.items()}
unfoldable pub values_of : Feature → List Candidate → Result ScoringError (List (ℕ × Decimal))
values_of feature [] = ok []
values_of feature (c ∷ cs) = do
  v ← or_raise (c.values feature) (missing_value feature)
  rest ← values_of feature cs
  ok ((c.key, v) ∷ rest)

-- percentiles[feature][key]
unfoldable pub percentile_of : List Candidate → ℕ → Feature → Result ScoringError Decimal
unfolding values_of ascending_midrank_percentiles
percentile_of population key feature = do
  values ← values_of feature population
  entry ←
      or_raise (find_first (λ e. e.0 == key) (ascending_midrank_percentiles values))
        (missing_percentile feature)
  ok entry.1

unfoldable pub percentiles_of :
    List Candidate → ℕ → Bool → List Feature → Result ScoringError (List Decimal)
unfolding percentile_of sub
percentiles_of population key reverse [] = ok []
percentiles_of population key reverse (f ∷ fs) = do
  p ← percentile_of population key f
  rest ← percentiles_of population key reverse fs
  ok ((if reverse then sub scoring_precision (of_ℕ 1) p else p) ∷ rest)

-- sum(values, Decimal(0)) / Decimal(len(values)) * Decimal(100)
unfoldable pub average_of_100 : List Decimal → Decimal
unfolding sum_from div mul
average_of_100 values =
    mul scoring_precision
      (div scoring_precision (sum_from scoring_precision (of_ℕ 0) values) (of_ℕ (length values)))
      (of_ℕ 100)

-- _component
unfoldable pub component : List Candidate → ℕ → Bool → List Feature → Result ScoringError Decimal
unfolding percentiles_of average_of_100
component population key reverse features = do
  values ← percentiles_of population key reverse features
  ok (average_of_100 values)

-- CalculatedComponentScores
pub record ComponentScores : Type 0 where
  pub momentum : Decimal
  pub trend : Decimal
  pub breakout : Decimal
  pub price_action : Decimal
  pub stability : Decimal
  pub volume : Option Decimal
  pub overall : Decimal

-- PRICE_FEATURE_GROUPS and VOLUME_FEATURES
abbrev pub momentum_features : List Feature
momentum_features = one_day_return ∷ five_day_return ∷ twenty_day_return ∷ []

abbrev pub trend_features : List Feature
trend_features = close_vs_sma5 ∷ close_vs_sma10 ∷ close_vs_sma20 ∷ []

abbrev pub breakout_features : List Feature
breakout_features = distance_from_prior_20d_high ∷ distance_from_prior_20d_low ∷ []

abbrev pub price_action_features : List Feature
price_action_features = latest_gap_return ∷ latest_intraday_return ∷ []

abbrev pub stability_features : List Feature
stability_features = latest_range_rate ∷ realized_volatility_20d ∷ atr14_rate ∷ []

abbrev pub volume_features : List Feature
volume_features = volume_ratio_5_to_20 ∷ latest_volume_to_avg20 ∷ average_dollar_volume_20 ∷ []

-- sum(score * weight) / sum(weight), over the active components.
unfoldable pub weighted_score : List (Decimal × ℕ) → Decimal
unfolding sum_from div mul
weighted_score active =
    div scoring_precision
      (sum_from scoring_precision (of_ℕ 0) (map (λ a. mul scoring_precision a.0 (of_ℕ a.1)) active))
      (of_ℕ (sum_of (λ a. a.1) active))

-- The volume's part, of an item that has one.
abbrev pub volume_part : Option Decimal → List (Decimal × ℕ)
volume_part none = []
volume_part (some v) = (v, 10) ∷ []

-- The turn of the loop for one item. The percentiles of the volume are taken over the ready items.
unfoldable pub scores_for : List Candidate → Candidate → Result ScoringError ComponentScores
unfolding component weighted_score
scores_for population c = do
  momentum ← component population c.key false momentum_features
  trend ← component population c.key false trend_features
  breakout ← component population c.key false breakout_features
  price_action ← component population c.key false price_action_features
  stability ← component population c.key true stability_features
  volume ←
      if is_ready c.quality
      then (component (select (λ x. is_ready x.quality) population) c.key false volume_features
          >>= λ v. ok (some v))
      else ok none
  ok (record {
    momentum = momentum;
    trend = trend;
    breakout = breakout;
    price_action = price_action;
    stability = stability;
    volume = volume;
    overall = weighted_score (
        (momentum, 25)
        ∷ (trend, 25)
        ∷ (breakout, 20)
        ∷ (price_action, 10)
        ∷ (stability, 10)
        ∷ volume_part volume);
  })

-- calculate_component_scores
unfoldable pub calculate_component_scores :
    List Candidate → List Candidate → Result ScoringError (List (ℕ × ComponentScores))
unfolding scores_for
calculate_component_scores population [] = ok []
calculate_component_scores population (c ∷ cs) = do
  scores ← scores_for population c
  rest ← calculate_component_scores population cs
  ok ((c.key, scores) ∷ rest)

-- RelativeScore(value).value
unfoldable pub relative_score : Decimal → Result ScoringError Decimal
unfolding quantize le_dec
relative_score value = do
  raise_if (lt_dec value (of_ℕ 0) || lt_dec (of_ℕ 100) value) relative_score_out_of_range
  or_raise (quantize scoring_precision 6 value) relative_score_not_representable

abbrev pub relative_volume : Option Decimal → Result ScoringError (Option Decimal)
relative_volume none = ok none
relative_volume (some v) = relative_score v >>= λ x. ok (some x)

-- application/services/daily_feature_scoring_builder.py: _persisted_scores
unfoldable pub persisted_scores : ComponentScores → Result ScoringError ComponentScores
unfolding relative_score
persisted_scores s = do
  momentum ← relative_score s.momentum
  trend ← relative_score s.trend
  breakout ← relative_score s.breakout
  price_action ← relative_score s.price_action
  stability ← relative_score s.stability
  volume ← relative_volume s.volume
  overall ← relative_score s.overall
  ok (record {
    momentum = momentum;
    trend = trend;
    breakout = breakout;
    price_action = price_action;
    stability = stability;
    volume = volume;
    overall = overall;
  })
