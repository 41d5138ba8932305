-- ===== src/Projector.antt =====
-- application/services/position_projector.py and position_projection_source.py: the projection of one BUY
-- fill to its position.
pub mod Applied
pub mod Once
pub mod Ledger
pub mod Agreement
pub mod Balance
pub mod Frame
pub mod Tests
use auto_trading_v.Prelude.{
  ℕ, ◌+◌, Bool, true, false, ◌||◌, not, Option, none, some, ltb, ◌==◌, is_none, codes_eq,
  if◌then◌else◌, Result, ok, raise, raise_if, or_raise, map_error, ◌>>=◌, ◌>>◌, List, [], ◌∷◌,
  find_first,
}
use auto_trading_v.Decimals.{Decimal, of_ℕ, eqb, is_zero, is_positive}
use auto_trading_v.Primitives.{Money}
use auto_trading_v.PaperOrders.{
  PaperOrderStatus, partially_filled, filled, PaperOrder, internal_paper_broker_code,
}
use auto_trading_v.PaperFills.{PaperFill}
use auto_trading_v.UnitOfWork.{
  TradeSide, buy, sell, StrategyAction, enter_long, TradeIntent, StrategyDecision, Candidate,
  MarketSnapshot, open_position, PaperPosition, PositionEventType, opened, increased, PositionEvent,
  Store, Ending, committed, uncommitted, with_unit_of_work, PersistenceError, not_found, get_order,
  get_intent, get_decision, get_candidate, get_snapshot,
}
use auto_trading_v.Positions.{
  ProjectionError, fill_quantity_not_positive, values_incomplete, position_invalid,
  average_not_representable, BuyPositionValues, calculate_buy_position, new_paper_position,
  PaperPositionBuyTransition, new_buy_transition, new_position_event, Constraint, open_position_key,
  event_sequence_key, open_by_key, add_position, event_by_fill, add_event,
  transition_after_buy_fill,
}

pub data ProjectionOutcome : Type 0 where
  applied already_applied : ProjectionOutcome

pub data SourceReason : Type 0 where
  paper_order_missing trade_intent_missing strategy_decision_missing candidate_missing :
      SourceReason
  market_snapshot_missing source_identity_mismatch order_state_mismatch source_value_mismatch :
      SourceReason

pub data InvalidReason : Type 0 where
  nonpositive_fill fill_precedes_position calculation_failed : InvalidReason

pub data ServiceError : Type 0 where
  fill_not_found unsupported_side position_not_found_during_transition concurrency : ServiceError
  source : SourceReason → ServiceError
  invalid_fill : InvalidReason → ServiceError
  validation : ProjectionError → ServiceError
  duplicate_record : Constraint → ServiceError
  persistence : Constraint → ServiceError

pub record ProjectionSource : Type 0 where
  pub fill : PaperFill
  pub order : PaperOrder
  pub intent : TradeIntent
  pub decision : StrategyDecision
  pub candidate : Candidate
  pub snapshot : MarketSnapshot

pub record ProjectionResult : Type 0 where
  pub outcome : ProjectionOutcome
  pub fill_id : ℕ
  pub position_id : ℕ
  pub position_event_id : ℕ
  pub event_type : PositionEventType
  pub quantity : ℕ
  pub average_cost_price : Decimal
  pub position_version : ℕ

abbrev pub is_sell : TradeSide → Bool
is_sell buy = false
is_sell sell = true

abbrev pub is_projectable : PaperOrderStatus → Bool
is_projectable partially_filled = true
is_projectable filled = true
is_projectable _ = false

abbrev pub is_enter_long : StrategyAction → Bool
is_enter_long enter_long = true
is_enter_long _ = false

abbrev pub executed_before : ℕ → Option ℕ → Bool
executed_before t none = false
executed_before t (some accepted_at) = ltb t accepted_at

-- validate_projection_source
unfoldable pub validate_projection_source : ProjectionSource → Result ServiceError (Unit {0})
validate_projection_source x = do
  raise_if (is_sell x.intent.side) unsupported_side
  raise_if (x.fill.quantity == 0 || not (is_positive x.fill.price)) (invalid_fill nonpositive_fill)
  raise_if
      (not (x.order.order_id == x.fill.order_id)
        || (not (x.order.trade_intent_id == x.intent.trade_intent_id)
            || (not (x.intent.decision_id == x.decision.decision_id)
                || (not (x.decision.candidate_id == x.candidate.candidate_id)
                    || not (x.candidate.market_snapshot_id == x.snapshot.market_snapshot_id)))))
      (source source_identity_mismatch)
  raise_if
      (not (codes_eq x.order.broker_code internal_paper_broker_code)
        || (not (is_projectable x.order.status) || is_none x.order.accepted_at))
      (source order_state_mismatch)
  raise_if
      (not (codes_eq x.intent.symbol x.snapshot.symbol)
        || (not (eqb x.fill.price x.snapshot.last_price)
            || (not (codes_eq x.fill.fee.currency x.intent.currency)
                || (not (is_zero x.fill.fee.amount)
                    || (not (is_enter_long x.decision.action)
                        || executed_before x.fill.executed_at x.order.accepted_at)))))
      (source source_value_mismatch)

-- load_projection_source
unfoldable pub load_projection_source : Store → ℕ → Result ServiceError ProjectionSource
load_projection_source s fill_id = do
  fill ← or_raise (find_first (λ f. f.fill_id == fill_id) s.paper_fills) fill_not_found
  order ← or_raise (get_order s fill.order_id) (source paper_order_missing)
  intent ← or_raise (get_intent s order.trade_intent_id) (source trade_intent_missing)
  decision ← or_raise (get_decision s intent.decision_id) (source strategy_decision_missing)
  candidate ← or_raise (get_candidate s decision.candidate_id) (source candidate_missing)
  snapshot ← or_raise (get_snapshot s candidate.market_snapshot_id) (source market_snapshot_missing)
  let x : ProjectionSource = record {
    fill = fill;
    order = order;
    intent = intent;
    decision = decision;
    candidate = candidate;
    snapshot = snapshot;
  }
  validate_projection_source x
  ok x

-- _result
abbrev pub result_of : PositionEvent → ProjectionOutcome → ProjectionResult
result_of e outcome = record {
  outcome = outcome;
  fill_id = e.fill_id;
  position_id = e.position_id;
  position_event_id = e.position_event_id;
  event_type = e.event_type;
  quantity = e.quantity_after;
  average_cost_price = e.average_cost_after;
  position_version = e.sequence_no;
}

abbrev pub zero_pnl : ProjectionSource → Money
zero_pnl x = record { amount = of_ℕ 0; currency = x.intent.currency }

-- _new_event
abbrev pub event_of :
    ProjectionSource → ℕ → ℕ → PositionEventType → ℕ → BuyPositionValues → Money → PositionEvent
event_of x event_id position_id type sequence_no values pnl = record {
  position_event_id = event_id;
  position_id = position_id;
  fill_id = x.fill.fill_id;
  sequence_no = sequence_no;
  event_type = type;
  quantity_delta = x.fill.quantity;
  quantity_after = values.quantity;
  average_cost_after = values.average_price;
  realized_pnl_delta = zero_pnl x;
  realized_pnl_after = pnl;
  occurred_at = x.fill.executed_at;
}

abbrev pub position_for : ProjectionSource → ℕ → BuyPositionValues → PaperPosition
position_for x position_id values = record {
  position_id = position_id;
  strategy_id = x.decision.strategy_id;
  symbol = x.intent.symbol;
  currency = x.intent.currency;
  status = open_position;
  quantity = values.quantity;
  average_cost_price = values.average_price;
  realized_pnl = zero_pnl x;
  opened_at = x.fill.executed_at;
  closed_at = none;
  version = 1;
  updated_at = x.fill.executed_at;
}

-- `except PositionProjectionValidationError`; a Price that is not positive is another exception.
abbrev pub calculation_error : ProjectionError → ServiceError
calculation_error fill_quantity_not_positive = invalid_fill calculation_failed
calculation_error values_incomplete = invalid_fill calculation_failed
calculation_error position_invalid = invalid_fill calculation_failed
calculation_error average_not_representable = invalid_fill calculation_failed
calculation_error e = validation e

-- _open_position
unfoldable pub open_new_position :
    ℕ → ℕ → Store → ProjectionSource → Result ServiceError (ProjectionResult × Store)
open_new_position position_id event_id s x = do
  values ←
      map_error calculation_error (calculate_buy_position x.fill.quantity x.fill.price none none)
  position ← map_error validation (new_paper_position (position_for x position_id values))
  positions ← map_error duplicate_record (add_position s.paper_positions position)
  event ←
      map_error validation
        (new_position_event (event_of x event_id position_id opened 1 values (zero_pnl x)))
  events ← map_error duplicate_record (add_event s.position_events event)
  ok (result_of event applied, record s { paper_positions = positions; position_events = events })

abbrev pub transition_error : PersistenceError → ServiceError
transition_error not_found = position_not_found_during_transition
transition_error _ = concurrency

abbrev pub buy_transition :
    ProjectionSource → PaperPosition → BuyPositionValues → PaperPositionBuyTransition
buy_transition x p values = record {
  position_id = p.position_id;
  expected_version = p.version;
  quantity = values.quantity;
  average_cost_price = values.average_price;
  updated_at = x.fill.executed_at;
}

-- _increase_position
unfoldable pub increase_position :
    ℕ → Store → ProjectionSource → PaperPosition → Result ServiceError (ProjectionResult × Store)
increase_position event_id s x p = do
  raise_if (ltb x.fill.executed_at p.updated_at) (invalid_fill fill_precedes_position)
  values ← map_error calculation_error (
      calculate_buy_position x.fill.quantity x.fill.price (some p.quantity)
        (some p.average_cost_price))
  event ← map_error validation (
      new_position_event
        (event_of x event_id p.position_id increased (p.version + 1) values p.realized_pnl))
  events ← map_error duplicate_record (add_event s.position_events event)
  transition ← map_error validation (new_buy_transition (buy_transition x p values))
  positions ← map_error transition_error (transition_after_buy_fill s.paper_positions transition)
  ok (result_of event applied, record s { paper_positions = positions; position_events = events })

-- The branch of _project_once on the position that is open for the source.
unfoldable pub apply_source :
    ℕ
    → ℕ
    → Store
    → ProjectionSource
    → Option PaperPosition
    → Result ServiceError (ProjectionResult × Store)
apply_source position_id event_id s x none = open_new_position position_id event_id s x
apply_source position_id event_id s x (some p) = increase_position event_id s x p

unfoldable pub project_new : ℕ → ℕ → ℕ → Store → Result ServiceError (Ending ProjectionResult)
project_new position_id event_id fill_id s = do
  x ← load_projection_source s fill_id
  (result, s') ←
      apply_source position_id event_id s x
        (open_by_key x.decision.strategy_id x.intent.symbol x.intent.currency s.paper_positions)
  ok (committed result s')

-- _project_once, inside the `with` block.
unfoldable pub project_body : ℕ → ℕ → ℕ → Store → Result ServiceError (Ending ProjectionResult)
project_body position_id event_id fill_id s = elim (event_by_fill fill_id s.position_events) [
  | some e ↦ ok (uncommitted (result_of e already_applied))
  | none ↦ project_new position_id event_id fill_id s
]

abbrev pub is_concurrency : Constraint → Bool
is_concurrency open_position_key = true
is_concurrency event_sequence_key = true
is_concurrency _ = false

-- _resolve_duplicate, on what the tables hold by then.
unfoldable pub resolve_duplicate : ℕ → Constraint → Store → Result ServiceError ProjectionResult
resolve_duplicate fill_id k later = elim (event_by_fill fill_id later.position_events) [
  | some e ↦ ok (result_of e already_applied)
  | none ↦ raise (if is_concurrency k then concurrency else persistence k)
]

-- project_fill's handler. `later` is what the tables hold when the second transaction begins,
-- other clients' commits included.
unfoldable pub handle :
    ℕ → Store → Result ServiceError ProjectionResult → Result ServiceError ProjectionResult
unfolding resolve_duplicate
handle fill_id later (raise (duplicate_record k)) = resolve_duplicate fill_id k later
handle fill_id later r = r

-- PositionProjectorService.project_fill
unfoldable pub project_fill :
    ℕ → ℕ → ℕ → Store → Store → Result ServiceError ProjectionResult × Store
unfolding handle with_unit_of_work
project_fill position_id event_id fill_id later s =
    let (r, s') = with_unit_of_work s (project_body position_id event_id fill_id) in
    (handle fill_id later r, s')
