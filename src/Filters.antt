-- ===== src/Filters.antt =====
-- domain/filtering: the five checks of a filter set over one market input, the score, and the
-- decision to pass (checks.py, engine.py, models.py), with domain/strategy/breakout.py. The rows of
-- the catalog (catalog.py) are in Filters/Catalog.
pub mod Catalog
pub mod Passing
pub mod Scores
pub mod Tests
use auto_trading_v.Prelude.{
  ℕ, Bool, true, false, ◌&&◌, ◌||◌, not, Option, none, some, List, [], ◌∷◌, ◌++◌, map, any, ltb,
  length, if◌then◌else◌, Result, ok, raise, raise_if, ◌>>=◌, ◌>>◌, map_error, ◌==◌,
}
use auto_trading_v.Prelude.{all}
use auto_trading_v.PaperOrders.{is_space}
use auto_trading_v.Text.{Text, codes}
use auto_trading_v.Decimals.{Decimal, of_ℕ, add, sub, mul, div, le_dec, lt_dec, eqb}
use auto_trading_v.Primitives.{default_precision, PriceError, price}

pub data FilterCheckName : Type 0 where
  price_range opening_change_min entry_change_max breakout_triggered volume_present :
      FilterCheckName

pub data FilterOutcome : Type 0 where
  pass fail not_evaluable : FilterOutcome

pub data FilterSetName : Type 0 where
  strict_set balanced_set score_only_set observation_set : FilterSetName

pub data FilterMode : Type 0 where
  strict balanced score_only observation : FilterMode

-- `is` between two members.
abbrev pub name_eq : FilterCheckName → FilterCheckName → Bool
name_eq price_range price_range = true
name_eq opening_change_min opening_change_min = true
name_eq entry_change_max entry_change_max = true
name_eq breakout_triggered breakout_triggered = true
name_eq volume_present volume_present = true
name_eq _ _ = false

abbrev pub is_pass : FilterOutcome → Bool
is_pass pass = true
is_pass _ = false

abbrev pub is_fail : FilterOutcome → Bool
is_fail fail = true
is_fail _ = false

abbrev pub is_not_evaluable : FilterOutcome → Bool
is_not_evaluable not_evaluable = true
is_not_evaluable _ = false

abbrev pub is_observation : FilterMode → Bool
is_observation observation = true
is_observation _ = false

-- CHECK_ORDER
abbrev pub check_order : List FilterCheckName
check_order =
    price_range ∷ opening_change_min ∷ entry_change_max ∷ breakout_triggered ∷ volume_present ∷ []

abbrev pub names_eq : List FilterCheckName → List FilterCheckName → Bool
names_eq [] [] = true
names_eq (x ∷ xs) (y ∷ ys) = name_eq x y && names_eq xs ys
names_eq _ _ = false

-- Prices are decimals that Price has accepted.
pub record FilterInput : Type 0 where
  pub symbol : Text
  pub open_price : Decimal
  pub last_price : Decimal
  pub previous_high_price : Decimal
  pub previous_low_price : Decimal
  pub previous_close_price : Option Decimal
  pub volume : Option ℕ

-- not value.strip()
abbrev pub is_blank : Text → Bool
is_blank t = all is_space t

pub record FilterThresholds : Type 0 where
  pub minimum_price : Decimal
  pub maximum_price : Decimal
  pub minimum_opening_change : Decimal
  pub maximum_entry_change : Decimal
  pub breakout_factor : Decimal

pub record FilterCheckWeight : Type 0 where
  pub name : FilterCheckName
  pub weight : Decimal

pub record FilterSetDefinition : Type 0 where
  pub filter_set_id : ℕ
  pub name : FilterSetName
  pub evaluation_version : Text
  pub mode : FilterMode
  pub thresholds : FilterThresholds
  pub weights : List FilterCheckWeight
  pub hard_checks : List FilterCheckName
  pub minimum_score : Decimal

pub data FilterError : Type 0 where
  evaluation_version_blank price_range_invalid threshold_negative weight_negative : FilterError
  weights_out_of_order weights_not_100 hard_checks_repeated minimum_score_out_of_range : FilterError
  weight_missing checks_out_of_order score_out_of_range : FilterError
  breakout_range_invalid breakout_factor_negative : FilterError
  breakout_price_invalid : PriceError → FilterError

abbrev pub is_negative : Decimal → Bool
is_negative d = lt_dec d (of_ℕ 0)

-- FilterThresholds.__post_init__
unfoldable pub new_thresholds : FilterThresholds → Result FilterError FilterThresholds
new_thresholds t = do
  raise_if (lt_dec t.maximum_price t.minimum_price) price_range_invalid
  raise_if (is_negative t.minimum_opening_change) threshold_negative
  raise_if (is_negative t.maximum_entry_change) threshold_negative
  raise_if (is_negative t.breakout_factor) threshold_negative
  ok t

-- sum(items, Decimal("0")) in a context of the given precision.
unfoldable pub sum_from : ℕ → Decimal → List Decimal → Decimal
sum_from prec total [] = total
sum_from prec total (d ∷ ds) = sum_from prec (add prec total d) ds

abbrev pub repeated : List FilterCheckName → Bool
repeated [] = false
repeated (n ∷ ns) = any (name_eq n) ns || repeated ns

-- The checks of FilterSetDefinition.__post_init__, and those of its weights.
unfoldable pub new_filter_set : FilterSetDefinition → Result FilterError FilterSetDefinition
unfolding sum_from
new_filter_set d = do
  raise_if (any (λ w. is_negative w.weight) d.weights) weight_negative
  raise_if (is_blank d.evaluation_version) evaluation_version_blank
  raise_if (not (names_eq (map (λ w. w.name) d.weights) check_order)) weights_out_of_order
  raise_if
      (not (eqb (sum_from default_precision (of_ℕ 0) (map (λ w. w.weight) d.weights)) (of_ℕ 100)))
      weights_not_100
  raise_if (repeated d.hard_checks) hard_checks_repeated
  raise_if (is_negative d.minimum_score || lt_dec (of_ℕ 100) d.minimum_score)
      minimum_score_out_of_range
  ok d

-- A value of the maps `observed` and `threshold`. A decimal stands for its fixed-point text.
pub data Shown : Type 0 where
  shown_decimal : Decimal → Shown
  shown_volume : ℕ → Shown
  shown_bool : Bool → Shown
  shown_none : Shown

pub record FilterCheckResult : Type 0 where
  pub name : FilterCheckName
  pub outcome : FilterOutcome
  pub reason_code : Text
  pub hard : Bool
  pub weight : Decimal
  pub observed : List (Text × Shown)
  pub threshold : List (Text × Shown)

-- _weight
unfoldable pub weight_of : List FilterCheckWeight → FilterCheckName → Result FilterError Decimal
weight_of [] n = raise weight_missing
weight_of (w ∷ ws) n = let later = weight_of ws n in if name_eq w.name n then ok w.weight else later

-- _result, with the check of FilterCheckResult.__post_init__
unfoldable pub result :
    FilterSetDefinition
    → FilterCheckName
    → FilterOutcome
    → Text
    → List (Text × Shown)
    → List (Text × Shown)
    → Result FilterError FilterCheckResult
result d n outcome reason observed threshold = do
  weight ← weight_of d.weights n
  raise_if (is_negative weight) weight_negative
  ok (record {
    name = n;
    outcome = outcome;
    reason_code = reason;
    hard = any (name_eq n) d.hard_checks;
    weight = weight;
    observed = observed;
    threshold = threshold;
  })

unfoldable pub price_range_check :
    FilterInput → FilterSetDefinition → Result FilterError FilterCheckResult
unfolding result
price_range_check i d =
    let answer : FilterOutcome × Text =
      if lt_dec i.last_price d.thresholds.minimum_price
      then (fail, codes "PRICE_BELOW_MINIMUM")
      else if lt_dec d.thresholds.maximum_price i.last_price
      then (fail, codes "PRICE_ABOVE_MAXIMUM")
      else (pass, codes "PRICE_WITHIN_RANGE") in
    result d price_range answer.0 answer.1 ((codes "last_price", shown_decimal i.last_price) ∷ []) (
      (codes "minimum", shown_decimal d.thresholds.minimum_price)
      ∷ (codes "maximum", shown_decimal d.thresholds.maximum_price)
      ∷ [])

-- The precision of the checks.
abbrev pub check_precision : ℕ
check_precision = 38

-- _change
unfoldable pub change : Decimal → Decimal → Decimal
change current previous = div check_precision (sub check_precision current previous) previous

-- The test of a change check, and the names of what it shows.
unfoldable pub opening_change_check :
    FilterInput → FilterSetDefinition → Result FilterError FilterCheckResult
unfolding result
opening_change_check i d = elim i.previous_close_price [
  | none ↦
      result d opening_change_min not_evaluable (codes "PREVIOUS_CLOSE_MISSING")
        ((codes "opening_change", shown_none) ∷ [])
        ((codes "minimum", shown_decimal d.thresholds.minimum_opening_change) ∷ [])
  | some close ↦
      let moved = change i.open_price close in
      let met = le_dec d.thresholds.minimum_opening_change moved in
      result d opening_change_min (if met then pass else fail)
        (if met then codes "OPENING_CHANGE_MET" else codes "OPENING_CHANGE_BELOW_MINIMUM")
        ((codes "opening_change", shown_decimal moved) ∷ [])
        ((codes "minimum", shown_decimal d.thresholds.minimum_opening_change) ∷ [])
]

unfoldable pub entry_change_check :
    FilterInput → FilterSetDefinition → Result FilterError FilterCheckResult
unfolding result
entry_change_check i d = elim i.previous_close_price [
  | none ↦
      result d entry_change_max not_evaluable (codes "PREVIOUS_CLOSE_MISSING")
        ((codes "entry_change", shown_none) ∷ [])
        ((codes "maximum", shown_decimal d.thresholds.maximum_entry_change) ∷ [])
  | some close ↦
      let moved = change i.last_price close in
      let met = le_dec moved d.thresholds.maximum_entry_change in
      result d entry_change_max (if met then pass else fail)
        (if met then codes "ENTRY_CHANGE_WITHIN_LIMIT" else codes "ENTRY_CHANGE_ABOVE_MAXIMUM")
        ((codes "entry_change", shown_decimal moved) ∷ [])
        ((codes "maximum", shown_decimal d.thresholds.maximum_entry_change) ∷ [])
]

-- volatility_breakout_price, with the checks of _validate_inputs, in a context of the precision.
unfoldable pub volatility_breakout_price :
    ℕ → Decimal → Decimal → Decimal → Decimal → Result FilterError Decimal
volatility_breakout_price prec current_open previous_high previous_low factor = do
  raise_if (lt_dec previous_high previous_low) breakout_range_invalid
  raise_if (is_negative factor) breakout_factor_negative
  map_error breakout_price_invalid
      (price (add prec current_open (mul prec (sub prec previous_high previous_low) factor)))

unfoldable pub breakout_check :
    FilterInput → FilterSetDefinition → Result FilterError FilterCheckResult
unfolding result volatility_breakout_price
breakout_check i d = do
  target ←
      volatility_breakout_price check_precision i.previous_high_price i.previous_high_price
        i.previous_low_price d.thresholds.breakout_factor
  let met = le_dec target i.last_price
  result d breakout_triggered (if met then pass else fail)
      (if met then codes "BREAKOUT_TRIGGERED" else codes "BREAKOUT_NOT_TRIGGERED")
      ((codes "last_price", shown_decimal i.last_price) ∷ [])
      ((codes "factor", shown_decimal d.thresholds.breakout_factor)
        ∷ (codes "target", shown_decimal target)
        ∷ [])

abbrev pub has_volume : Option ℕ → Bool
has_volume none = false
has_volume (some v) = ltb 0 v

abbrev pub shown_of : Option ℕ → Shown
shown_of none = shown_none
shown_of (some v) = shown_volume v

unfoldable pub volume_present_check :
    FilterInput → FilterSetDefinition → Result FilterError FilterCheckResult
unfolding result
volume_present_check i d =
    result d volume_present (if has_volume i.volume then pass else fail)
      (if has_volume i.volume then codes "VOLUME_PRESENT" else codes "VOLUME_MISSING_OR_ZERO")
      ((codes "volume", shown_of i.volume) ∷ []) ((codes "positive_required", shown_bool true) ∷ [])

unfoldable pub evaluate_checks :
    FilterInput → FilterSetDefinition → Result FilterError (List FilterCheckResult)
evaluate_checks i d = do
  a ← price_range_check i d
  b ← opening_change_check i d
  c ← entry_change_check i d
  e ← breakout_check i d
  f ← volume_present_check i d
  ok (a ∷ b ∷ c ∷ e ∷ f ∷ [])

pub record FilterEvaluationResult : Type 0 where
  pub filter_set_id : ℕ
  pub filter_set_name : FilterSetName
  pub evaluation_version : Text
  pub mode : FilterMode
  pub passed : Bool
  pub score : Decimal
  pub checks : List FilterCheckResult
  pub blocking_reason_codes : List Text

-- The weights of the checks that passed.
abbrev pub passed_weights : List FilterCheckResult → List Decimal
passed_weights [] = []
passed_weights (c ∷ cs) =
    if is_pass c.outcome then c.weight ∷ passed_weights cs else passed_weights cs

abbrev pub hard_failed : List FilterCheckResult → Bool
hard_failed checks = any (λ c. c.hard && is_fail c.outcome) checks

abbrev pub hard_not_evaluable : List FilterCheckResult → Bool
hard_not_evaluable checks = any (λ c. c.hard && is_not_evaluable c.outcome) checks

-- The codes whose conditions hold.
abbrev pub blocking_codes : Bool → Bool → Bool → List Text
blocking_codes failed unknown below =
    (if failed then codes "HARD_CHECK_FAILED" ∷ [] else [])
    ++ ((if unknown then codes "HARD_CHECK_NOT_EVALUABLE" ∷ [] else [])
        ++ (if below then codes "SCORE_BELOW_MINIMUM" ∷ [] else []))

-- FilterEvaluationResult.__post_init__
unfoldable pub new_evaluation : FilterEvaluationResult → Result FilterError FilterEvaluationResult
new_evaluation r = do
  raise_if (is_blank r.evaluation_version) evaluation_version_blank
  raise_if (not (names_eq (map (λ c. c.name) r.checks) check_order)) checks_out_of_order
  raise_if (is_negative r.score || lt_dec (of_ℕ 100) r.score) score_out_of_range
  ok r

-- The result of an evaluation from its checks.
abbrev pub evaluation_of :
    FilterSetDefinition → List FilterCheckResult → Decimal → FilterEvaluationResult
evaluation_of d checks score = record {
  filter_set_id = d.filter_set_id;
  filter_set_name = d.name;
  evaluation_version = d.evaluation_version;
  mode = d.mode;
  passed =
      if is_observation d.mode
      then true
      else not (hard_failed checks)
        && (not (hard_not_evaluable checks) && not (lt_dec score d.minimum_score));
  score = score;
  checks = checks;
  blocking_reason_codes =
      if is_observation d.mode
      then []
      else blocking_codes (hard_failed checks) (hard_not_evaluable checks)
          (lt_dec score d.minimum_score);
}

-- DeterministicFilterEngine.evaluate
unfoldable pub evaluate :
    FilterInput → FilterSetDefinition → Result FilterError FilterEvaluationResult
unfolding sum_from new_evaluation
evaluate i d = do
  checks ← evaluate_checks i d
  new_evaluation
      (evaluation_of d checks (sum_from check_precision (of_ℕ 0) (passed_weights checks)))
