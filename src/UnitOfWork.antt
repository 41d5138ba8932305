-- ===== src/UnitOfWork.antt =====
-- The tables that the execution services read and write, and the transaction around a call:
-- adapters/persistence/unit_of_work.py and the repositories beside it. SQL itself is third-party
-- code: a query is modelled by what it selects, an insert by the unique keys that it must keep
-- (tables/execution.py, tables/portfolio.py), and an update by the rows that its condition meets.
pub mod Tables
pub mod Transaction
use auto_trading_v.Prelude.{
  ℕ, suc, ◌+◌, Bool, true, false, ◌&&◌, ◌||◌, not, Option, none, some, List, [], ◌∷◌, ◌++◌, map,
  length, select, find_first, any, count, leb, ltb, ◌==◌, codes_eq, if◌then◌else◌, Result, ok,
  raise, raise_if, or_raise, ◌>>=◌, ◌>>◌,
}
use auto_trading_v.Decimals.{Decimal}
use auto_trading_v.Text.{Text}
use auto_trading_v.Primitives.{Money}
use auto_trading_v.PaperOrders.{PaperOrderStatus, status_eq, PaperOrder}
use auto_trading_v.PaperFills.{PaperFill, PaperOrderFillTransition}

pub data TradeSide : Type 0 where
  buy sell : TradeSide

pub data TradeOrderType : Type 0 where
  market limit : TradeOrderType

pub data TimeInForce : Type 0 where
  day : TimeInForce

pub data StrategyAction : Type 0 where
  enter_long exit_long observe skip : StrategyAction

pub record TradeIntent : Type 0 where
  pub trade_intent_id : ℕ
  pub decision_id : ℕ
  pub idempotency_key : Text
  pub symbol : Text
  pub currency : Text
  pub side : TradeSide
  pub order_type : TradeOrderType
  pub requested_quantity : ℕ
  pub limit_price : Option Decimal
  pub time_in_force : TimeInForce
  pub created_at : ℕ

pub record StrategyDecision : Type 0 where
  pub decision_id : ℕ
  pub candidate_id : ℕ
  pub strategy_id : ℕ
  pub strategy_version : Text
  pub action : StrategyAction

pub record Candidate : Type 0 where
  pub candidate_id : ℕ
  pub market_snapshot_id : ℕ

pub record MarketSnapshot : Type 0 where
  pub market_snapshot_id : ℕ
  pub symbol : Text
  pub last_price : Decimal

pub data PaperPositionStatus : Type 0 where
  open_position closed_position : PaperPositionStatus

pub record PaperPosition : Type 0 where
  pub position_id : ℕ
  pub strategy_id : ℕ
  pub symbol : Text
  pub currency : Text
  pub status : PaperPositionStatus
  pub quantity : ℕ
  pub average_cost_price : Decimal
  pub realized_pnl : Money
  pub opened_at : ℕ
  pub closed_at : Option ℕ
  pub version : ℕ
  pub updated_at : ℕ

pub data PositionEventType : Type 0 where
  opened increased : PositionEventType

pub record PositionEvent : Type 0 where
  pub position_event_id : ℕ
  pub position_id : ℕ
  pub fill_id : ℕ
  pub sequence_no : ℕ
  pub event_type : PositionEventType
  pub quantity_delta : ℕ
  pub quantity_after : ℕ
  pub average_cost_after : Decimal
  pub realized_pnl_delta : Money
  pub realized_pnl_after : Money
  pub occurred_at : ℕ

pub record Store : Type 0 where
  pub trade_intents : List TradeIntent
  pub strategy_decisions : List StrategyDecision
  pub candidates : List Candidate
  pub market_snapshots : List MarketSnapshot
  pub paper_orders : List PaperOrder
  pub paper_fills : List PaperFill
  pub paper_positions : List PaperPosition
  pub position_events : List PositionEvent

-- How the body of a `with` block ended, if it raised nothing.
pub data Ending (A : Type 0) : Type 0 where
  committed : A → Store → Ending A
  uncommitted : A → Ending A

-- Leaving the block: what was not committed is rolled back, whether the body returned or raised.
unfoldable pub with_unit_of_work :
    {E A : Type 0} → Store → (Store → Result E (Ending A)) → Result E A × Store
with_unit_of_work s body = elim (body s) [
  | ok r ↦ elim r [ committed a s' ↦ (ok a, s') | uncommitted a ↦ (ok a, s) ]
  | raise e ↦ (raise e, s)
]

-- What the write operations of a repository raise.
pub data PersistenceError : Type 0 where
  duplicate not_found stale : PersistenceError

abbrev pub get_order : Store → ℕ → Option PaperOrder
get_order s k = find_first (λ r. r.order_id == k) s.paper_orders

abbrev pub get_intent : Store → ℕ → Option TradeIntent
get_intent s k = find_first (λ r. r.trade_intent_id == k) s.trade_intents

abbrev pub get_decision : Store → ℕ → Option StrategyDecision
get_decision s k = find_first (λ r. r.decision_id == k) s.strategy_decisions

abbrev pub get_candidate : Store → ℕ → Option Candidate
get_candidate s k = find_first (λ r. r.candidate_id == k) s.candidates

abbrev pub get_snapshot : Store → ℕ → Option MarketSnapshot
get_snapshot s k = find_first (λ r. r.market_snapshot_id == k) s.market_snapshots

-- ORDER BY fill_sequence
unfoldable pub insert_by_sequence : PaperFill → List PaperFill → List PaperFill
insert_by_sequence f [] = f ∷ []
insert_by_sequence f (g ∷ gs) =
    if leb f.fill_sequence g.fill_sequence then f ∷ g ∷ gs else g ∷ insert_by_sequence f gs

unfoldable pub sort_by_sequence : List PaperFill → List PaperFill
unfolding insert_by_sequence
sort_by_sequence [] = []
sort_by_sequence (f ∷ fs) = insert_by_sequence f (sort_by_sequence fs)

-- paper_fills.list_by_order
unfoldable pub fills_by_order : List PaperFill → ℕ → List PaperFill
unfolding sort_by_sequence
fills_by_order fills k = sort_by_sequence (select (λ f. f.order_id == k) fills)

-- The keys of a fill: its identifier, its execution key, and its place in its order.
abbrev pub same_fill : PaperFill → PaperFill → Bool
same_fill f g =
    f.fill_id == g.fill_id
    || (codes_eq f.execution_key g.execution_key
        || (f.order_id == g.order_id && f.fill_sequence == g.fill_sequence))

-- paper_fills.add
unfoldable pub add_fill : List PaperFill → PaperFill → Result PersistenceError (List PaperFill)
add_fill fills f = do raise_if (any (same_fill f) fills) duplicate; ok (fills ++ f ∷ [])

-- The condition and the values of the UPDATE after a fill.
abbrev pub transition_meets : PaperOrderFillTransition → PaperOrder → Bool
transition_meets t o =
    o.order_id == t.order_id
    && (status_eq o.status t.expected_status && o.version == t.expected_version)

abbrev pub after_transition : PaperOrderFillTransition → PaperOrder → PaperOrder
after_transition t o = record o {
  status = t.new_status;
  closed_at = t.closed_at;
  updated_at = t.updated_at;
  version = t.expected_version + 1;
}

abbrev pub update_orders : PaperOrderFillTransition → List PaperOrder → List PaperOrder
update_orders t orders = map (λ o. if transition_meets t o then after_transition t o else o) orders

-- paper_orders.transition_after_fill
unfoldable pub transition_after_fill :
    List PaperOrder
    → PaperOrderFillTransition
    → Result PersistenceError (PaperOrder × List PaperOrder)
transition_after_fill orders t =
    if count (transition_meets t) orders == 1
    then (do
      stored ←
          or_raise (find_first (λ o. o.order_id == t.order_id) (update_orders t orders)) not_found
      ok (stored, update_orders t orders))
    else if any (λ o. o.order_id == t.order_id) orders
    then raise stale
    else raise not_found
