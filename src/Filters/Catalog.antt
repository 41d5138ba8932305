-- ===== src/Filters/Catalog.antt =====
-- domain/filtering/catalog.py: the built-in filter sets.
use auto_trading_v.Prelude.{ℕ, List, [], ◌∷◌}
use auto_trading_v.Prelude.Int.{pos}
use auto_trading_v.Text.{Text, codes}
use auto_trading_v.Decimals.{of_ℕ}
use auto_trading_v.Filters.{
  FilterCheckName, price_range, opening_change_min, entry_change_max, breakout_triggered,
  volume_present, FilterSetName, strict_set, balanced_set, score_only_set, observation_set,
  FilterMode, strict, balanced, score_only, observation, FilterThresholds, FilterCheckWeight,
  FilterSetDefinition, check_order,
}

-- EVALUATION_VERSION
abbrev pub evaluation_version : Text
evaluation_version = codes "v1"

-- COMMON_THRESHOLDS
abbrev pub common_thresholds : FilterThresholds
common_thresholds = record {
  minimum_price = of_ℕ 10;
  maximum_price = of_ℕ 300;
  minimum_opening_change = record { coefficient = pos 3; scale = 2 };
  maximum_entry_change = record { coefficient = pos 15; scale = 2 };
  breakout_factor = record { coefficient = pos 5; scale = 1 };
}

-- COMMON_WEIGHTS
abbrev pub common_weights : List FilterCheckWeight
common_weights =
    record { name = price_range; weight = of_ℕ 20 }
    ∷ record { name = opening_change_min; weight = of_ℕ 20 }
    ∷ record { name = entry_change_max; weight = of_ℕ 20 }
    ∷ record { name = breakout_triggered; weight = of_ℕ 30 }
    ∷ record { name = volume_present; weight = of_ℕ 10 }
    ∷ []

abbrev set_of : ℕ → FilterSetName → FilterMode → List FilterCheckName → ℕ → FilterSetDefinition
set_of id name mode hard minimum = record {
  filter_set_id = id;
  name = name;
  evaluation_version = evaluation_version;
  mode = mode;
  thresholds = common_thresholds;
  weights = common_weights;
  hard_checks = hard;
  minimum_score = of_ℕ minimum;
}

abbrev pub strict_filter : FilterSetDefinition
strict_filter = set_of 0xaaad2a674080580590d52b6c350b8cdd strict_set strict check_order 100

abbrev pub balanced_filter : FilterSetDefinition
balanced_filter =
    set_of 0x58865908eb8a5089bc66b38b49578f84 balanced_set balanced
      (price_range ∷ entry_change_max ∷ []) 70

abbrev pub score_only_filter : FilterSetDefinition
score_only_filter = set_of 0xe5f2aa3d82e1566aaeb47313b49fc436 score_only_set score_only [] 60

abbrev pub observation_filter : FilterSetDefinition
observation_filter = set_of 0xbf66c976b971571eb688d21abfacfb4d observation_set observation [] 0

-- BUILT_IN_FILTER_SETS
abbrev pub built_in_filter_sets : List FilterSetDefinition
built_in_filter_sets = strict_filter ∷ balanced_filter ∷ score_only_filter ∷ observation_filter ∷ []
