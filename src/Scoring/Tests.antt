-- ===== src/Scoring/Tests.antt =====
-- Three items, one of them degraded.
use auto_trading_v.Prelude.{
  Bool, true, if◌then◌else◌, ◌==◌, ℕ, ◌+◌, codes_eq, ◌≡◌, refl, Option, some, none, List, [], ◌∷◌,
  map, arith, ok,
}
use auto_trading_v.Decimals.{Decimal, of_ℕ, mul, eqb, le_dec}
use auto_trading_v.Scoring.{
  Feature, volume_ratio_5_to_20, latest_volume_to_avg20, average_dollar_volume_20, ready, degraded,
  Candidate, ComponentScores, ascending_midrank_percentiles, calculate_component_scores,
}
use auto_trading_v.Scoring.Ranks.{
  RankingInput, negated, key_lt, sorted, deterministic_ranks, ranked_items, check_ranks,
}
use auto_trading_v.Scoring.Ranking.{check_ranks-ranked_items}
use auto_trading_v.Scoring.Population.{AllPersisted, calculate_component_scores_total}

abbrev values_at : ℕ → Feature → Option Decimal
values_at v f = some (of_ℕ v)

abbrev without_volume : ℕ → Feature → Option Decimal
without_volume v volume_ratio_5_to_20 = none
without_volume v latest_volume_to_avg20 = none
without_volume v average_dollar_volume_20 = none
without_volume v _ = some (of_ℕ v)

abbrev flat : ℕ → ComponentScores
flat v = record {
  momentum = of_ℕ v;
  trend = of_ℕ v;
  breakout = of_ℕ v;
  price_action = of_ℕ v;
  stability = of_ℕ v;
  volume = none;
  overall = of_ℕ v;
}

abbrev population : List Candidate
population =
    record { key = 1; values = values_at 7; quality = ready }
    ∷ record { key = 2; values = without_volume 5; quality = degraded }
    ∷ record { key = 3; values = values_at 7; quality = ready }
    ∷ []

-- 0 for the least value, and the mean of 1/2 and 1 for the two above it.
tied :
    map {B = ℕ × Bool}
      (λ e. (e.0, eqb (mul 38 e.1 (of_ℕ 4)) (of_ℕ (if e.0 == 2 then 0 else 3))))
      (ascending_midrank_percentiles ((1, of_ℕ 7) ∷ (2, of_ℕ 5) ∷ (3, of_ℕ 7) ∷ []))
    ≡ (2, true) ∷ (1, true) ∷ (3, true) ∷ []
unfolding ascending_midrank_percentiles mul eqb
tied = refl

calculate_component_scores_total_example :
    (rs : List (ℕ × ComponentScores)) × (calculate_component_scores population population ≡ ok rs)
    × (map (λ r. r.0) rs ≡ 1 ∷ 2 ∷ 3 ∷ [])
    × AllPersisted rs
calculate_component_scores_total_example = calculate_component_scores_total population (record {
  few = omega arith;
  momentum = (
    ((of_ℕ 7, refl), ((of_ℕ 5, refl), ((of_ℕ 7, refl), tt))),
    (
      ((of_ℕ 7, refl), ((of_ℕ 5, refl), ((of_ℕ 7, refl), tt))),
      (((of_ℕ 7, refl), ((of_ℕ 5, refl), ((of_ℕ 7, refl), tt))), tt),
    ),
  );
  trend = (
    ((of_ℕ 7, refl), ((of_ℕ 5, refl), ((of_ℕ 7, refl), tt))),
    (
      ((of_ℕ 7, refl), ((of_ℕ 5, refl), ((of_ℕ 7, refl), tt))),
      (((of_ℕ 7, refl), ((of_ℕ 5, refl), ((of_ℕ 7, refl), tt))), tt),
    ),
  );
  breakout = (
    ((of_ℕ 7, refl), ((of_ℕ 5, refl), ((of_ℕ 7, refl), tt))),
    (((of_ℕ 7, refl), ((of_ℕ 5, refl), ((of_ℕ 7, refl), tt))), tt),
  );
  price_action = (
    ((of_ℕ 7, refl), ((of_ℕ 5, refl), ((of_ℕ 7, refl), tt))),
    (((of_ℕ 7, refl), ((of_ℕ 5, refl), ((of_ℕ 7, refl), tt))), tt),
  );
  stability = (
    ((of_ℕ 7, refl), ((of_ℕ 5, refl), ((of_ℕ 7, refl), tt))),
    (
      ((of_ℕ 7, refl), ((of_ℕ 5, refl), ((of_ℕ 7, refl), tt))),
      (((of_ℕ 7, refl), ((of_ℕ 5, refl), ((of_ℕ 7, refl), tt))), tt),
    ),
  );
  volume = (
    ((of_ℕ 7, refl), ((of_ℕ 7, refl), tt)),
    (((of_ℕ 7, refl), ((of_ℕ 7, refl), tt)), (((of_ℕ 7, refl), ((of_ℕ 7, refl), tt)), tt)),
  );
})

-- Two ready entries, the second one better, and a degraded one.
abbrev entries : List RankingInput
entries =
    record {
      key = 1;
      quality_status = ready;
      mic_code = 88 ∷ [];
      symbol = 65 ∷ [];
      scores = flat 40;
    }
    ∷ record {
      key = 2;
      quality_status = degraded;
      mic_code = 88 ∷ [];
      symbol = 66 ∷ [];
      scores = flat 90;
    }
    ∷ record {
      key = 3;
      quality_status = ready;
      mic_code = 88 ∷ [];
      symbol = 67 ∷ [];
      scores = flat 70;
    }
    ∷ []

best_first : deterministic_ranks entries ≡ (3, 1) ∷ (1, 2) ∷ (2, 3) ∷ []
unfolding deterministic_ranks sorted key_lt negated eqb le_dec codes_eq
best_first = refl

check_ranks-ranked_items_example : check_ranks (ranked_items (λ k. 100 + k) entries) ≡ ok tt
check_ranks-ranked_items_example =
    check_ranks-ranked_items entries
      (((λ e. omega arith), ((λ e. omega arith), tt)), (((λ e. omega arith), tt), (tt, tt)))
      (λ k. 100 + k)
