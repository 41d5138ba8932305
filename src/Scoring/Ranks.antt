-- ===== src/Scoring/Ranks.antt =====
-- deterministic_ranks (domain/feature_scoring/scoring.py) and the rank checks of
-- domain/feature_scoring/aggregate.py.
use auto_trading_v.Prelude.{
  ℕ, zero, suc, Bool, true, false, not, List, [], ◌∷◌, map, length, ltb, ◌==◌, codes_eq,
  if◌then◌else◌, Result, raise_if, ◌>>◌,
}
use auto_trading_v.Decimals.{Decimal, of_ℕ, sub, eqb, le_dec, lt_dec}
use auto_trading_v.Text.{Text}
use auto_trading_v.Scoring.{FeatureQualityStatus, is_ready, ComponentScores}

-- sorted(xs, key=…), which keeps the order of equal keys: `before x y` is key(x) < key(y).
module _ {A : Type 0} (before : A → A → Bool) where
  unfoldable pub insert_sorted : A → List A → List A
  insert_sorted x [] = x ∷ []
  insert_sorted x (y ∷ ys) = if before y x then y ∷ insert_sorted x ys else x ∷ y ∷ ys

  unfoldable pub sorted : List A → List A
  unfolding insert_sorted
  sorted [] = []
  sorted (x ∷ xs) = insert_sorted x (sorted xs)

-- RankingInput
pub record RankingInput : Type 0 where
  pub key : ℕ
  pub quality_status : FeatureQualityStatus
  pub mic_code : Text
  pub symbol : Text
  pub scores : ComponentScores

-- The tuple that a ranking sorts by.
pub record RankKey : Type 0 where
  pub tier : ℕ
  pub overall : Decimal
  pub momentum : Decimal
  pub trend : Decimal
  pub mic_code : Text
  pub symbol : Text

-- `<` between texts.
unfoldable pub text_lt : Text → Text → Bool
text_lt xs [] = false
text_lt [] (_ ∷ _) = true
text_lt (x ∷ xs) (y ∷ ys) = if x == y then text_lt xs ys else ltb x y

-- -d, which rounds as every operation of the default context does
unfoldable pub negated : Decimal → Decimal
unfolding sub
negated d = sub 28 (of_ℕ 0) d

-- `<` between the tuples
unfoldable pub key_lt : RankKey → RankKey → Bool
unfolding text_lt eqb le_dec
key_lt a b =
    if not (a.tier == b.tier)
    then ltb a.tier b.tier
    else if not (eqb a.overall b.overall)
    then lt_dec a.overall b.overall
    else if not (eqb a.momentum b.momentum)
    then lt_dec a.momentum b.momentum
    else if not (eqb a.trend b.trend)
    then lt_dec a.trend b.trend
    else if not (codes_eq a.mic_code b.mic_code)
    then text_lt a.mic_code b.mic_code
    else text_lt a.symbol b.symbol

abbrev pub tier_of : Bool → ℕ
tier_of is_first = if is_first then 0 else 1

abbrev pub input_key : RankingInput → RankKey
input_key e = record {
  tier = tier_of (is_ready e.quality_status);
  overall = negated e.scores.overall;
  momentum = negated e.scores.momentum;
  trend = negated e.scores.trend;
  mic_code = e.mic_code;
  symbol = e.symbol;
}

abbrev pub input_before : RankingInput → RankingInput → Bool
input_before e f = key_lt (input_key e) (input_key f)

-- {entry.key: rank for rank, entry in enumerate(ordered, start=n)}
abbrev pub numbered : ℕ → List RankingInput → List (ℕ × ℕ)
numbered n [] = []
numbered n (e ∷ es) = (e.key, n) ∷ numbered (suc n) es

unfoldable pub deterministic_ranks : List RankingInput → List (ℕ × ℕ)
unfolding sorted key_lt
deterministic_ranks entries = numbered 1 (sorted input_before entries)

-- A scored DailyFeatureScoringItem, with the fields that the rank checks read.
pub record ScoredItem : Type 0 where
  pub item_id : ℕ
  pub rank : ℕ
  pub is_scored_ready : Bool
  pub overall : Decimal
  pub momentum : Decimal
  pub trend : Decimal
  pub mic_code : Text
  pub symbol : Text

-- ranks[key]; 0 where there is none, which does not happen to an entry.
abbrev pub rank_in : ℕ → List (ℕ × ℕ) → ℕ
rank_in k [] = 0
rank_in k (r ∷ rs) = if r.0 == k then r.1 else rank_in k rs

-- The item of an entry, in daily_feature_scoring_builder.py: _new_item. `id_for` gives the identifier
-- that the factory makes for it.
abbrev pub item_of : (ℕ → ℕ) → List (ℕ × ℕ) → RankingInput → ScoredItem
item_of id_for ranks e = record {
  item_id = id_for e.key;
  rank = rank_in e.key ranks;
  is_scored_ready = is_ready e.quality_status;
  overall = e.scores.overall;
  momentum = e.scores.momentum;
  trend = e.scores.trend;
  mic_code = e.mic_code;
  symbol = e.symbol;
}

-- build_scoring_items, of the entries that are scored.
unfoldable pub ranked_items : (ℕ → ℕ) → List RankingInput → List ScoredItem
unfolding deterministic_ranks
ranked_items id_for entries = map (item_of id_for (deterministic_ranks entries)) entries

-- _rank_key
abbrev pub item_key : ScoredItem → RankKey
item_key i = record {
  tier = tier_of i.is_scored_ready;
  overall = negated i.overall;
  momentum = negated i.momentum;
  trend = negated i.trend;
  mic_code = i.mic_code;
  symbol = i.symbol;
}

pub data AggregateError : Type 0 where
  rank_sequence_invalid rank_policy_invalid : AggregateError

-- list(range(n, n + length))
abbrev pub range_from : ℕ → ℕ → List ℕ
range_from n zero = []
range_from n (suc k) = n ∷ range_from (suc n) k

-- The rank checks of DailyFeatureScoringRunWithItems.__post_init__, on its scored items.
unfoldable pub check_ranks : List ScoredItem → Result AggregateError (Unit {0})
unfolding sorted key_lt codes_eq
check_ranks ranked = do
  raise_if (not (codes_eq (sorted ltb (map (λ i. i.rank) ranked)) (range_from 1 (length ranked))))
      rank_sequence_invalid
  raise_if
      (not (
        codes_eq (map (λ i. i.item_id) (sorted (λ i j. key_lt (item_key i) (item_key j)) ranked))
          (map (λ i. i.item_id) (sorted (λ i j. ltb i.rank j.rank) ranked))))
      rank_policy_invalid
