-- ===== src/CandidateDecisions.antt =====
-- application/services/strategy_decision.py, the service that stores a decision of each strategy for a
-- candidate; application/contracts/strategy_decisions.py and
-- domain/strategy_decisions/decision_keys.py.
mod Tests
pub mod Rows
pub mod Sources
pub mod Eligible
pub mod Turns
use auto_trading_v.Prelude.{
  ℕ, suc, Bool, true, false, ◌&&◌, ◌||◌, not, Option, none, some, List, [], ◌∷◌, ◌++◌, select, any,
  length, ltb, leb, ◌==◌, codes_eq, if◌then◌else◌, Result, ok, raise, raise_if, or_raise, map_error,
  ◌>>=◌, ◌>>◌,
}
use auto_trading_v.Decimals.{Decimal}
use auto_trading_v.Text.{Text, codes, uuid_text}
use auto_trading_v.PaperOrders.{is_space, code_ok}
use auto_trading_v.UnitOfWork.{
  StrategyAction, enter_long, exit_long, observe, skip, StrategyDecision, Store, get_candidate,
  PersistenceError, duplicate,
}
use auto_trading_v.Strategies.{
  StrategyError, StrategyDefinition, StrategySignal, StrategyDecisionResult, new_signal, decide,
  version_ok, normalize_reason_codes,
}

-- What the service reads of a StoredFilterEvaluation, with the one entry of its details that is read.
pub record FilterEvaluation : Type 0 where
  pub filter_evaluation_id : ℕ
  pub candidate_id : ℕ
  pub filter_set_id : ℕ
  pub evaluation_version : Text
  pub passed : Bool
  pub score : Option Decimal
  pub blocking_reason_codes : Option (List Text)

-- NewCandidateStrategyDecision: what the later services read of it, and the rest.
pub record CandidateDecision : Type 0 where
  pub decision : StrategyDecision
  pub decision_key : Text
  pub filter_evaluation_id : ℕ
  pub reason_codes : List Text
  pub decided_at : ℕ

pub data EvaluationProblem : Type 0 where
  duplicate_source candidate_mismatch invalid_score invalid_contract : EvaluationProblem

-- The exceptions of a call. A definition shows its names and versions.
pub data DecisionServiceError : Type 0 where
  candidate_not_found : DecisionServiceError
  required_evaluation_missing : StrategyDefinition → DecisionServiceError
  invalid_evaluation : StrategyDefinition → EvaluationProblem → DecisionServiceError
  decision_conflict : StrategyDefinition → DecisionServiceError
  decision_key_invalid decision_version_invalid action_not_allowed : DecisionServiceError
  reason_codes_invalid : StrategyError → DecisionServiceError

-- candidate_strategy_decision_key
unfoldable pub candidate_strategy_decision_key : ℕ → ℕ → Text → Result DecisionServiceError Text
unfolding uuid_text
candidate_strategy_decision_key candidate_id strategy_id strategy_version = do
  raise_if (not (version_ok strategy_version)) decision_version_invalid
  let key =
      codes "candidate:"
      ++ (uuid_text candidate_id
          ++ (codes "|strategy:"
              ++ (uuid_text strategy_id ++ (codes "|version:" ++ strategy_version))))
  raise_if (ltb 160 (length key) || any is_space key) decision_key_invalid
  ok key

-- _CANDIDATE_ACTIONS
abbrev pub is_candidate_action : StrategyAction → Bool
is_candidate_action enter_long = true
is_candidate_action skip = true
is_candidate_action observe = true
is_candidate_action exit_long = false

-- NewCandidateStrategyDecision.__post_init__
unfoldable pub new_candidate_decision :
    CandidateDecision → Result DecisionServiceError CandidateDecision
unfolding code_ok normalize_reason_codes
new_candidate_decision r = do
  raise_if (not (is_candidate_action r.decision.action)) action_not_allowed
  raise_if (not (code_ok 160 r.decision_key) || any is_space r.decision_key) decision_key_invalid
  raise_if (not (code_ok 64 r.decision.strategy_version)) decision_version_invalid
  normalized ←
      map_error reason_codes_invalid (normalize_reason_codes true none false r.reason_codes)
  ok (record r { reason_codes = normalized })

-- The unique keys: the identifier, the key, and the candidate with the strategy and its version.
abbrev pub same_decision : CandidateDecision → CandidateDecision → Bool
same_decision r q =
    q.decision.decision_id == r.decision.decision_id
    || (codes_eq q.decision_key r.decision_key
        || q.decision.candidate_id == r.decision.candidate_id
          && (q.decision.strategy_id == r.decision.strategy_id
              && codes_eq q.decision.strategy_version r.decision.strategy_version))

-- strategy_decisions.add
unfoldable pub add_decision :
    List CandidateDecision → CandidateDecision → Result PersistenceError (List CandidateDecision)
add_decision table r = do raise_if (any (same_decision r) table) duplicate; ok (table ++ r ∷ [])

abbrev pub is_source : StrategyDefinition → FilterEvaluation → Bool
is_source d e =
    e.filter_set_id == d.source_filter_set_id
    && codes_eq e.evaluation_version d.source_evaluation_version

abbrev pub only_source :
    StrategyDefinition → List FilterEvaluation → Result DecisionServiceError FilterEvaluation
only_source d [] = raise (required_evaluation_missing d)
only_source d (e ∷ []) = ok e
only_source d (_ ∷ _ ∷ _) = raise (invalid_evaluation d duplicate_source)

-- The signal of an evaluation
abbrev pub signal_from : FilterEvaluation → Decimal → StrategySignal
signal_from e score = record {
  filter_set_id = e.filter_set_id;
  evaluation_version = e.evaluation_version;
  passed = e.passed;
  score = score;
  blocking_reason_codes = e.blocking_reason_codes;
}

-- One turn of the loop over the definitions
unfoldable pub select_signal :
    ℕ
    → List FilterEvaluation
    → StrategyDefinition
    → Result DecisionServiceError (FilterEvaluation × StrategySignal)
unfolding new_signal
select_signal candidate_id evaluations d = do
  e ← only_source d (select (is_source d) evaluations)
  raise_if (not (e.candidate_id == candidate_id)) (invalid_evaluation d candidate_mismatch)
  score ← or_raise e.score (invalid_evaluation d invalid_score)
  signal ← map_error (λ _. invalid_evaluation d invalid_contract) (new_signal (signal_from e score))
  ok (e, signal)

-- A definition, its evaluation and the signal.
abbrev pub Selected : Type 0
Selected = StrategyDefinition × FilterEvaluation × StrategySignal

-- CandidateStrategyDecisionService._select_signals
unfoldable pub select_signals :
    ℕ
    → List FilterEvaluation
    → List StrategyDefinition
    → Result DecisionServiceError (List Selected)
unfolding select_signal
select_signals candidate_id evaluations [] = ok []
select_signals candidate_id evaluations (d ∷ ds) = do
  x ← select_signal candidate_id evaluations d
  rest ← select_signals candidate_id evaluations ds
  ok ((d, x.0, x.1) ∷ rest)

module _ (new_id : ℕ → ℕ) (decided_at candidate_id : ℕ) where
  abbrev pub row_for : ℕ → FilterEvaluation → StrategyDecisionResult → Text → CandidateDecision
  row_for i e result key = record {
    decision = record {
      decision_id = new_id i;
      candidate_id = candidate_id;
      strategy_id = result.strategy_id;
      strategy_version = result.strategy_version;
      action = result.action;
    };
    decision_key = key;
    filter_evaluation_id = e.filter_evaluation_id;
    reason_codes = result.reason_codes;
    decided_at = decided_at;
  }

  -- One turn of the loop over the signals. `new_id i` is the factory's i-th identifier.
  unfoldable pub store_decision :
      ℕ
      → Selected
      → List CandidateDecision
      → Result DecisionServiceError (CandidateDecision × List CandidateDecision)
  unfolding decide candidate_strategy_decision_key new_candidate_decision add_decision
  store_decision i (d, e, signal) table = do
    result ← map_error (λ _. invalid_evaluation d invalid_contract) (decide signal d)
    key ← candidate_strategy_decision_key candidate_id result.strategy_id result.strategy_version
    row ← new_candidate_decision (row_for i e result key)
    after ← map_error (λ _. decision_conflict d) (add_decision table row)
    ok (row, after)

  unfoldable pub store_decisions :
      ℕ
      → List Selected
      → List CandidateDecision
      → Result DecisionServiceError (List CandidateDecision × List CandidateDecision)
  unfolding store_decision
  store_decisions i [] table = ok ([], table)
  store_decisions i (x ∷ xs) table = do
    one ← store_decision i x table
    rest ← store_decisions (suc i) xs one.1
    ok (one.0 ∷ rest.0, rest.1)

  -- CandidateStrategyDecisionService.decide_all, inside the `with` block
  unfoldable pub decide_body :
      List StrategyDefinition
      → Store
      → List FilterEvaluation
      → List CandidateDecision
      → Result DecisionServiceError (List CandidateDecision × List CandidateDecision)
  unfolding select_signals store_decisions
  decide_body strategies s evaluations table = do
    candidate ← or_raise (get_candidate s candidate_id) candidate_not_found
    selected ←
        select_signals candidate_id (select (λ e. e.candidate_id == candidate_id) evaluations)
          strategies
    store_decisions 0 selected table

-- The table after the block: what a raise leaves is what was there.
abbrev pub ended :
    List CandidateDecision
    → Result DecisionServiceError (List CandidateDecision × List CandidateDecision)
    → Result DecisionServiceError (List CandidateDecision) × List CandidateDecision
ended table (raise e) = (raise e, table)
ended table (ok (rows, after)) = (ok rows, after)

-- CandidateStrategyDecisionService.decide_all, with the tables of filter evaluations and of decisions
unfoldable pub decide_all :
    (ℕ → ℕ)
    → ℕ
    → ℕ
    → List StrategyDefinition
    → Store
    → List FilterEvaluation
    → List CandidateDecision
    → Result DecisionServiceError (List CandidateDecision) × List CandidateDecision
unfolding decide_body
decide_all new_id decided_at candidate_id strategies s evaluations table =
    ended table (decide_body new_id decided_at candidate_id strategies s evaluations table)
