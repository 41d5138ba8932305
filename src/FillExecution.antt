-- ===== src/FillExecution.antt =====
-- application/services/paper_fill.py: one deterministic fill of one order, in one transaction.
pub mod Effect
pub mod Writes
pub mod Lifecycle
pub mod Isolation
pub mod Finished
pub mod Steps
pub mod Progress
mod Tests
use auto_trading_v.Prelude.{
  ℕ, ◌+◌, Bool, true, false, ◌||◌, ◌&&◌, not, Option, none, some, List, [], ◌∷◌, length, get_elem?,
  leb, ltb, ◌==◌, is_some, codes_eq, if◌then◌else◌, Result, ok, raise, raise_if, or_raise,
  map_error, ◌>>=◌, ◌>>◌,
}
use auto_trading_v.Decimals.{Decimal, of_ℕ}
use auto_trading_v.Text.{Text}
use auto_trading_v.Primitives.{Money, usd}
use auto_trading_v.PaperOrders.{
  PaperOrderStatus, accepted, partially_filled, filled, status_eq, PaperOrder,
  internal_paper_broker_code,
}
use auto_trading_v.PaperFills.{
  HistoryReason, index_error, PaperFillError, FillQuantityPlan, plan, paper_fill_execution_key,
  PaperFill, Expected, validate_fill_history, new_paper_fill, PaperOrderFillTransition,
  new_transition,
}
use auto_trading_v.UnitOfWork.{
  TradeSide, buy, sell, TradeOrderType, market, limit, TradeIntent, StrategyDecision, Candidate,
  MarketSnapshot, Store, Ending, committed, with_unit_of_work, PersistenceError, get_order,
  get_intent, get_decision, get_candidate, get_snapshot, fills_by_order, add_fill,
  transition_after_fill,
}

pub data SourceReason : Type 0 where
  trade_intent_missing strategy_decision_missing candidate_missing : SourceReason
  market_snapshot_missing symbol_mismatch accepted_request_shape_mismatch : SourceReason
  clock_precedes_order : SourceReason

pub data ExecutionError : Type 0 where
  order_not_found order_conflict order_concurrency : ExecutionError
  unsupported_broker : Text → ExecutionError
  not_fillable : PaperOrderStatus → ExecutionError
  source : SourceReason → ExecutionError
  acceptance_missing fill_plan_exhausted : ExecutionError
  history : HistoryReason → ExecutionError
  invalid : PaperFillError → ExecutionError

abbrev pub is_buy : TradeSide → Bool
is_buy buy = true
is_buy sell = false

abbrev pub is_market : TradeOrderType → Bool
is_market market = true
is_market limit = false

abbrev pub is_fillable_status : PaperOrderStatus → Bool
is_fillable_status accepted = true
is_fillable_status partially_filled = true
is_fillable_status _ = false

-- _validate_fillable_order
unfoldable pub validate_fillable_order : PaperOrder → Result ExecutionError (Unit {0})
validate_fillable_order o = do
  raise_if (not (codes_eq o.broker_code internal_paper_broker_code))
      (unsupported_broker o.broker_code)
  raise_if (not (is_fillable_status o.status)) (not_fillable o.status)

-- _validate_accepted_intent. DAY is the only time in force.
unfoldable pub validate_accepted_intent : TradeIntent → Result ExecutionError (Unit {0})
validate_accepted_intent i =
    raise_if
      (not (codes_eq i.currency usd)
        || (not (is_buy i.side)
            || (not (is_market i.order_type)
                || (is_some i.limit_price || i.requested_quantity == 0))))
      (source accepted_request_shape_mismatch)

-- The records that a fill of an order rests on.
pub record Chain : Type 0 where
  pub order : PaperOrder
  pub intent : TradeIntent
  pub snapshot : MarketSnapshot

-- The reads of `execute_next`, up to the plan.
unfoldable pub load_chain : Store → ℕ → Result ExecutionError Chain
unfolding validate_fillable_order validate_accepted_intent
load_chain s order_id = do
  order ← or_raise (get_order s order_id) order_not_found
  validate_fillable_order order
  intent ← or_raise (get_intent s order.trade_intent_id) (source trade_intent_missing)
  decision ← or_raise (get_decision s intent.decision_id) (source strategy_decision_missing)
  candidate ← or_raise (get_candidate s decision.candidate_id) (source candidate_missing)
  snapshot ← or_raise (get_snapshot s candidate.market_snapshot_id) (source market_snapshot_missing)
  raise_if (not (codes_eq intent.symbol snapshot.symbol)) (source symbol_mismatch)
  validate_accepted_intent intent
  ok (record { order = order; intent = intent; snapshot = snapshot })

abbrev pub expected : Chain → ℕ → FillQuantityPlan → Expected
expected c accepted_at p = record {
  order_id = c.order.order_id;
  accepted_at = accepted_at;
  plan = p;
  reference_price = c.snapshot.last_price;
  fee_currency = c.intent.currency;
}

-- What is written: the new fill, and the transition of its order.
pub record Step : Type 0 where
  pub fill : PaperFill
  pub transition : PaperOrderFillTransition

-- The fill that stands `sequence`-th in the plan, at the market's price and without a fee.
abbrev pub next_fill : Chain → ℕ → Text → ℕ → ℕ → ℕ → PaperFill
next_fill c fill_id key sequence quantity now = record {
  fill_id = fill_id;
  order_id = c.order.order_id;
  execution_key = key;
  fill_sequence = sequence;
  quantity = quantity;
  price = c.snapshot.last_price;
  fee = record { amount = of_ℕ 0; currency = c.intent.currency };
  executed_at = now;
}

abbrev pub next_transition : Chain → Bool → ℕ → PaperOrderFillTransition
next_transition c final now = record {
  order_id = c.order.order_id;
  expected_status = c.order.status;
  expected_version = c.order.version;
  new_status = if final then filled else partially_filled;
  closed_at = if final then some now else none;
  updated_at = now;
}

-- From the validated history to the new records, with the number of fills so far and their sum.
-- `now` is what the clock answers, `fill_id` what the factory of identifiers makes.
unfoldable pub complete_step : Chain → FillQuantityPlan → ℕ → ℕ → ℕ → ℕ → Result ExecutionError Step
complete_step c p number cumulative now fill_id = do
  raise_if (leb (length p.quantities) number) fill_plan_exhausted
  raise_if (ltb now c.order.updated_at) (source clock_precedes_order)
  let sequence = number + 1
  quantity ← or_raise (get_elem? p.quantities number) (history index_error)
  key ← map_error invalid (paper_fill_execution_key c.order.order_id sequence)
  fill ← map_error invalid (new_paper_fill (next_fill c fill_id key sequence quantity now))
  let final = cumulative + quantity == c.intent.requested_quantity
  transition ← map_error invalid (new_transition (next_transition c final now))
  ok (record { fill = fill; transition = transition })

-- From the plan to the new records.
unfoldable pub prepare_step : Chain → List PaperFill → ℕ → ℕ → Result ExecutionError Step
unfolding complete_step
prepare_step c fills now fill_id = do
  p ← map_error invalid (plan c.intent.requested_quantity)
  accepted_at ← or_raise c.order.accepted_at acceptance_missing
  cumulative ←
      map_error history (validate_fill_history c.order.status (expected c accepted_at p) fills)
  complete_step c p (length fills) cumulative now fill_id

-- The writes of `execute_next`, up to the commit.
unfoldable pub write_step : Store → Step → Result ExecutionError (PaperOrder × Store)
write_step s step = do
  fills ← map_error (λ _. order_conflict) (add_fill s.paper_fills step.fill)
  (order, orders) ←
      map_error (λ _. order_concurrency) (transition_after_fill s.paper_orders step.transition)
  ok (order, record s { paper_fills = fills; paper_orders = orders })

-- PaperFillExecutionService.execute_next, inside the `with` block.
unfoldable pub execute_body :
    ℕ → ℕ → ℕ → Store → Result ExecutionError (Ending (PaperFill × PaperOrder))
execute_body now fill_id order_id s = do
  c ← load_chain s order_id
  step ← prepare_step c (fills_by_order s.paper_fills order_id) now fill_id
  (order, s') ← write_step s step
  ok (committed (step.fill, order) s')

unfoldable pub execute_next :
    ℕ → ℕ → ℕ → Store → Result ExecutionError (PaperFill × PaperOrder) × Store
unfolding with_unit_of_work execute_body
execute_next now fill_id order_id s = with_unit_of_work s (execute_body now fill_id order_id)
