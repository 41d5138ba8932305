-- ===== src/TradeIntents/Service.antt =====
-- application/services/trade_intent.py: the intents for the decisions to enter of a candidate.
use auto_trading_v.Prelude.{
  ℕ, suc, Bool, true, false, ◌&&◌, ◌||◌, not, none, List, [], ◌∷◌, select, ◌==◌, codes_eq,
  if◌then◌else◌, Result, ok, raise, raise_if, or_raise, map_error, ◌>>=◌, ◌>>◌,
}
use auto_trading_v.Text.{Text}
use auto_trading_v.UnitOfWork.{
  StrategyAction, enter_long, exit_long, observe, skip, StrategyDecision, MarketSnapshot,
  TradeIntent, Store, Ending, committed, uncommitted, with_unit_of_work, get_candidate,
  get_snapshot,
}
use auto_trading_v.Strategies.{StrategyDefinition}
use auto_trading_v.TradeIntents.{
  approved, declined, TradeIntentError, FixedNotionalRiskPolicy, EntrySizingResult,
  plan_fixed_notional_quantity, trade_intent_idempotency_key, new_trade_intent, add_intent,
}

pub data SourceProblem : Type 0 where
  duplicate_source candidate_mismatch unexpected_action : SourceProblem

-- The exceptions of a call. A definition shows its name and version.
pub data IntentServiceError : Type 0 where
  candidate_not_found market_snapshot_not_found : IntentServiceError
  required_decision_missing : StrategyDefinition → IntentServiceError
  invalid_decision : StrategyDefinition → SourceProblem → IntentServiceError
  risk_rejected : List Text → IntentServiceError
  intent_conflict : StrategyDefinition → IntentServiceError
  intent_invalid : TradeIntentError → IntentServiceError

abbrev pub is_enter : StrategyAction → Bool
is_enter enter_long = true
is_enter exit_long = false
is_enter observe = false
is_enter skip = false

abbrev pub is_observe : StrategyAction → Bool
is_observe observe = true
is_observe enter_long = false
is_observe exit_long = false
is_observe skip = false

abbrev pub is_skip : StrategyAction → Bool
is_skip skip = true
is_skip enter_long = false
is_skip exit_long = false
is_skip observe = false

-- CandidateTradeIntentService._validate_action
unfoldable pub validate_action :
    StrategyDefinition → StrategyAction → Result IntentServiceError (Unit {0})
validate_action d action =
    raise_if
      (not (if d.observation_only then is_observe action else is_enter action || is_skip action))
      (invalid_decision d unexpected_action)

abbrev pub is_of : StrategyDefinition → StrategyDecision → Bool
is_of d x = x.strategy_id == d.strategy_id && codes_eq x.strategy_version d.strategy_version

-- The one match that there has to be.
abbrev pub only_match :
    StrategyDefinition → List StrategyDecision → Result IntentServiceError StrategyDecision
only_match d [] = raise (required_decision_missing d)
only_match d (x ∷ []) = ok x
only_match d (_ ∷ _ ∷ _) = raise (invalid_decision d duplicate_source)

-- One turn of the loop over the definitions: the decision, if it is valid.
unfoldable pub decision_for :
    ℕ → List StrategyDecision → StrategyDefinition → Result IntentServiceError StrategyDecision
unfolding validate_action
decision_for candidate_id decisions d = do
  x ← only_match d (select (is_of d) decisions)
  raise_if (not (x.candidate_id == candidate_id)) (invalid_decision d candidate_mismatch)
  valid ← validate_action d x.action
  ok x

-- CandidateTradeIntentService._eligible_decisions
unfoldable pub eligible_decisions :
    ℕ
    → List StrategyDecision
    → List StrategyDefinition
    → Result IntentServiceError (List (StrategyDefinition × StrategyDecision))
unfolding decision_for
eligible_decisions candidate_id decisions [] = ok []
eligible_decisions candidate_id decisions (d ∷ ds) = do
  x ← decision_for candidate_id decisions d
  rest ← eligible_decisions candidate_id decisions ds
  ok (if is_enter x.action then (d, x) ∷ rest else rest)

-- strategy_decisions.list_by_candidate. Its order is not looked at: every strategy has one match.
abbrev pub decisions_of : Store → ℕ → List StrategyDecision
decisions_of s candidate_id = select (λ x. x.candidate_id == candidate_id) s.strategy_decisions

-- The quantity of an approved result.
abbrev pub quantity_of_sizing : EntrySizingResult → Result IntentServiceError ℕ
quantity_of_sizing r = elim r.outcome [
  | declined ↦ raise (risk_rejected r.reason_codes)
  | approved ↦ or_raise r.requested_quantity (risk_rejected [])
]

module _ (policy : FixedNotionalRiskPolicy) (new_id : ℕ → ℕ) where
  -- The row of one decision. `new_id i` is what the factory of identifiers makes at its i-th call.
  abbrev pub intent_of : ℕ → MarketSnapshot → ℕ → ℕ → StrategyDecision → Text → TradeIntent
  intent_of now snapshot quantity i x key = record {
    trade_intent_id = new_id i;
    decision_id = x.decision_id;
    idempotency_key = key;
    symbol = snapshot.symbol;
    currency = policy.maximum_notional.currency;
    side = policy.side;
    order_type = policy.order_type;
    requested_quantity = quantity;
    limit_price = none;
    time_in_force = policy.time_in_force;
    created_at = now;
  }

  -- One turn of the loop over the eligible decisions: the row, and the table with it.
  unfoldable pub store_intent :
      ℕ
      → MarketSnapshot
      → ℕ
      → ℕ
      → StrategyDefinition × StrategyDecision
      → List TradeIntent
      → Result IntentServiceError (TradeIntent × List TradeIntent)
  unfolding trade_intent_idempotency_key new_trade_intent add_intent
  store_intent now snapshot quantity i (d, x) intents = do
    key ← map_error intent_invalid (trade_intent_idempotency_key x.decision_id policy)
    t ← map_error intent_invalid (new_trade_intent (intent_of now snapshot quantity i x key))
    after ← map_error (λ _. intent_conflict d) (add_intent intents t)
    ok (t, after)

  unfoldable pub store_intents :
      ℕ
      → MarketSnapshot
      → ℕ
      → ℕ
      → List (StrategyDefinition × StrategyDecision)
      → List TradeIntent
      → Result IntentServiceError (List TradeIntent × List TradeIntent)
  unfolding store_intent
  store_intents now snapshot quantity i [] intents = ok ([], intents)
  store_intents now snapshot quantity i (e ∷ es) intents = do
    one ← store_intent now snapshot quantity i e intents
    rest ← store_intents now snapshot quantity (suc i) es one.1
    ok (one.0 ∷ rest.0, rest.1)

  -- What is stored for the decisions to enter, if there are any.
  unfoldable pub create_eligible :
      ℕ
      → MarketSnapshot
      → List (StrategyDefinition × StrategyDecision)
      → Store
      → Result IntentServiceError (Ending (List TradeIntent))
  unfolding plan_fixed_notional_quantity store_intents
  create_eligible now snapshot [] s = ok (uncommitted [])
  create_eligible now snapshot (e ∷ es) s = do
    sizing ← map_error intent_invalid (plan_fixed_notional_quantity snapshot.last_price policy)
    quantity ← quantity_of_sizing sizing
    stored ← store_intents now snapshot quantity 0 (e ∷ es) s.trade_intents
    ok (committed stored.0 (record s { trade_intents = stored.1 }))

  module _ (strategies : List StrategyDefinition) where
    -- CandidateTradeIntentService.create_all, inside the `with` block.
    unfoldable pub create_body :
        ℕ → ℕ → Store → Result IntentServiceError (Ending (List TradeIntent))
    unfolding eligible_decisions create_eligible
    create_body now candidate_id s = do
      candidate ← or_raise (get_candidate s candidate_id) candidate_not_found
      snapshot ← or_raise (get_snapshot s candidate.market_snapshot_id) market_snapshot_not_found
      eligible ← eligible_decisions candidate_id (decisions_of s candidate_id) strategies
      create_eligible now snapshot eligible s

    -- CandidateTradeIntentService.create_all
    unfoldable pub create_all : ℕ → ℕ → Store → Result IntentServiceError (List TradeIntent) × Store
    unfolding with_unit_of_work create_body
    create_all now candidate_id s = with_unit_of_work s (create_body now candidate_id)
