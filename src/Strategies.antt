-- ===== src/Strategies.antt =====
-- domain/strategy_decisions: reason codes (reason_codes.py), the signal and the decision
-- (models.py, engine.py), the exit of a position (position_exit.py).
pub mod Codes
pub mod Decisions
pub mod Exits
mod Tests
use auto_trading_v.Prelude.{
  ℕ, ◌-◌, Bool, true, false, ◌&&◌, ◌||◌, not, Option, none, some, List, [], ◌∷◌, ◌++◌, any, all,
  ltb, leb, length, is_none, is_some, codes_eq, if◌then◌else◌, Result, ok, raise, raise_if, ◌>>=◌,
  ◌>>◌, ◌==◌,
}
use auto_trading_v.Filters.{is_blank}
use auto_trading_v.Text.{Text, codes}
use auto_trading_v.Decimals.{Decimal, of_ℕ, sub, div, le_dec, lt_dec}
use auto_trading_v.Primitives.{default_precision, usd}
use auto_trading_v.UnitOfWork.{StrategyAction, enter_long, exit_long, skip, observe}

pub data StrategyError : Type 0 where
  reason_code_invalid too_many_reason_codes reason_codes_repeated reason_codes_empty : StrategyError
  blocking_codes_missing signal_mismatch score_out_of_range : StrategyError
  holding_duration_invalid strategy_version_invalid evaluation_version_blank : StrategyError

abbrev is_upper : ℕ → Bool
is_upper c = leb b'A' c && leb c b'Z'

abbrev is_code_char : ℕ → Bool
is_code_char c = is_upper c || (leb b'0' c && leb c b'9' || c == b'_')

-- REASON_CODE_PATTERN: an upper-case letter, then at most 63 letters, digits and underscores.
unfoldable pub is_reason_code : Text → Bool
is_reason_code [] = false
is_reason_code (c ∷ cs) = is_upper c && (all is_code_char cs && leb (length cs) 63)

-- code in seen
abbrev pub contains : Text → List Text → Bool
contains code seen = any (codes_eq code) seen

-- The loop of normalize_reason_codes, with the codes seen so far.
unfoldable pub normalize_from : Bool → List Text → List Text → Result StrategyError (List Text)
normalize_from deduplicate seen [] = ok []
normalize_from deduplicate seen (code ∷ later) =
    let again = normalize_from deduplicate seen later in
    let next = normalize_from deduplicate (code ∷ seen) later in
    raise_if (not (is_reason_code code)) reason_code_invalid
    >> (if contains code seen
        then (if deduplicate then again else raise reason_codes_repeated)
        else (next >>= λ rest. ok (code ∷ rest)))

abbrev pub is_empty : List Text → Bool
is_empty [] = true
is_empty (_ ∷ _) = false

abbrev pub exceeds : ℕ → Option ℕ → Bool
exceeds n none = false
exceeds n (some maximum) = ltb maximum n

-- normalize_reason_codes: require_non_empty, maximum, deduplicate, and the codes.
unfoldable pub normalize_reason_codes :
    Bool → Option ℕ → Bool → List Text → Result StrategyError (List Text)
unfolding normalize_from
normalize_reason_codes require_non_empty maximum deduplicate values = do
  raise_if (exceeds (length values) maximum) too_many_reason_codes
  normalized ← normalize_from deduplicate [] values
  raise_if (require_non_empty && is_empty normalized) reason_codes_empty
  ok normalized

-- MAX_BLOCKING_REASON_CODES
abbrev pub max_blocking_reason_codes : ℕ
max_blocking_reason_codes = 16

-- extract_blocking_reason_codes, of the array that the details hold, if they hold one.
unfoldable pub extract_blocking_reason_codes :
    Bool → Option (List Text) → Result StrategyError (List Text)
extract_blocking_reason_codes require_non_empty none = raise blocking_codes_missing
extract_blocking_reason_codes require_non_empty (some raw) =
    normalize_reason_codes require_non_empty (some max_blocking_reason_codes) true raw

pub record StrategyDefinition : Type 0 where
  pub strategy_id : ℕ
  pub strategy_version : Text
  pub source_filter_set_id : ℕ
  pub source_evaluation_version : Text
  pub observation_only : Bool

-- StrategySignal, with the one entry of its details that is read.
pub record StrategySignal : Type 0 where
  pub filter_set_id : ℕ
  pub evaluation_version : Text
  pub passed : Bool
  pub score : Decimal
  pub blocking_reason_codes : Option (List Text)

-- StrategySignal.__post_init__
unfoldable pub new_signal : StrategySignal → Result StrategyError StrategySignal
new_signal s = do
  raise_if (is_blank s.evaluation_version) evaluation_version_blank
  raise_if (lt_dec s.score (of_ℕ 0) || lt_dec (of_ℕ 100) s.score) score_out_of_range
  blocking ← extract_blocking_reason_codes (not s.passed) s.blocking_reason_codes
  ok s

pub record StrategyDecisionResult : Type 0 where
  pub strategy_id : ℕ
  pub strategy_version : Text
  pub source_filter_set_id : ℕ
  pub source_evaluation_version : Text
  pub action : StrategyAction
  pub reason_codes : List Text

-- validate_strategy_version
abbrev pub version_ok : Text → Bool
version_ok v = not (is_blank v) && leb (length v) 64

-- StrategyDecisionResult.__post_init__
unfoldable pub new_decision : StrategyDecisionResult → Result StrategyError StrategyDecisionResult
new_decision r = do
  raise_if (not (version_ok r.strategy_version)) strategy_version_invalid
  raise_if (is_blank r.source_evaluation_version) evaluation_version_blank
  normalized ← normalize_reason_codes true none false r.reason_codes
  ok (record r { reason_codes = normalized })

-- The action and the reasons of a decision.
abbrev pub action_of : Bool → Bool → StrategyAction
action_of observation_only passed =
    if observation_only then observe else if passed then enter_long else skip

abbrev pub reasons_of : Bool → Bool → List Text → List Text
reasons_of observation_only passed blocking =
    if observation_only
    then codes "OBSERVATION_ONLY" ∷ []
    else if passed
    then codes "FILTER_SET_PASSED" ∷ codes "ENTRY_ALLOWED" ∷ []
    else codes "FILTER_SET_FAILED" ∷ (blocking ++ codes "ENTRY_BLOCKED" ∷ [])

-- DeterministicStrategyDecisionEngine.decide
unfoldable pub decide :
    StrategySignal → StrategyDefinition → Result StrategyError StrategyDecisionResult
unfolding new_decision
decide s d = do
  raise_if
      (not (s.filter_set_id == d.source_filter_set_id)
        || not (codes_eq s.evaluation_version d.source_evaluation_version))
      signal_mismatch
  blocking ← extract_blocking_reason_codes (not s.passed) s.blocking_reason_codes
  new_decision (record {
    strategy_id = d.strategy_id;
    strategy_version = d.strategy_version;
    source_filter_set_id = d.source_filter_set_id;
    source_evaluation_version = d.source_evaluation_version;
    action = action_of d.observation_only s.passed;
    reason_codes = reasons_of d.observation_only s.passed blocking;
  })

-- PositionExitPolicy, its rates as decimals and its durations in microseconds.
pub record PositionExitPolicy : Type 0 where
  pub stop_loss_rate : Decimal
  pub take_profit_rate : Decimal
  pub maximum_holding_duration : ℕ

pub record PositionExitEvaluation : Type 0 where
  pub action : StrategyAction
  pub reason_codes : List Text
  pub return_rate : Decimal
  pub holding_duration : ℕ

-- The three triggers, in order.
abbrev pub triggered : Bool → Bool → Bool → List Text
triggered stop_loss take_profit time_exit =
    (if stop_loss then codes "STOP_LOSS_TRIGGERED" ∷ [] else [])
    ++ ((if take_profit then codes "TAKE_PROFIT_TRIGGERED" ∷ [] else [])
        ++ (if time_exit then codes "TIME_EXIT_TRIGGERED" ∷ [] else []))

-- The action and reasons of the triggers.
abbrev pub exit_of : List Text → StrategyAction × List Text
exit_of reasons =
    if is_empty reasons
    then (skip, codes "EXIT_CONDITIONS_NOT_MET" ∷ codes "POSITION_HOLD" ∷ [])
    else (exit_long, reasons ++ codes "EXIT_LONG_ALLOWED" ∷ [])

-- The return of a position at the current price.
unfoldable pub return_rate : Decimal → Decimal → Decimal
return_rate average_cost_price current_price =
    div default_precision (sub default_precision current_price average_cost_price)
      average_cost_price

-- evaluate_position_exit: average cost, current price, times of opening and observation, policy.
unfoldable pub evaluate_position_exit :
    Decimal → Decimal → ℕ → ℕ → PositionExitPolicy → Result StrategyError PositionExitEvaluation
evaluate_position_exit average_cost_price current_price opened_at observed_at policy = do
  raise_if (ltb observed_at opened_at) holding_duration_invalid
  let rate = return_rate average_cost_price current_price
  let exit = exit_of (
      triggered (le_dec rate policy.stop_loss_rate) (le_dec policy.take_profit_rate rate)
        (leb policy.maximum_holding_duration (observed_at - opened_at)))
  reasons ← normalize_reason_codes true none false exit.1
  ok (record {
    action = exit.0;
    reason_codes = reasons;
    return_rate = rate;
    holding_duration = observed_at - opened_at;
  })
