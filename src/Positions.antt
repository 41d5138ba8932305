-- ===== src/Positions.antt =====
-- domain/position_projection: quantity and weighted average after a BUY fill; the contracts of
-- application/contracts/position_projection.py; and the writes of the repositories
-- repositories/paper_positions.py and repositories/position_events.py.
use auto_trading_v.Prelude.{
  ℕ, ◌+◌, Bool, true, false, ◌&&◌, ◌||◌, not, Option, none, some, List, [], ◌∷◌, ◌++◌, map,
  find_first, any, count, ltb, ◌==◌, is_some, codes_eq, if◌then◌else◌, Result, ok, raise, raise_if,
  or_raise, map_error, ◌>>=◌, ◌>>◌,
}
use auto_trading_v.Decimals.{Decimal, of_ℕ, add, mul, div, quantize, is_zero}
use auto_trading_v.Text.{Text}
use auto_trading_v.Primitives.{default_precision, PriceError, price}
use auto_trading_v.UnitOfWork.{
  PaperPosition, PaperPositionStatus, open_position, closed_position, PositionEvent,
  PersistenceError, not_found, stale,
}

pub data ProjectionError : Type 0 where
  fill_quantity_not_positive values_incomplete position_invalid : ProjectionError
  average_not_representable : ProjectionError
  price_invalid : PriceError → ProjectionError
  new_position_invalid pnl_currency_invalid pnl_not_zero : ProjectionError
  position_update_precedes_opening transition_invalid event_invalid event_pnl_invalid :
      ProjectionError

pub record BuyPositionValues : Type 0 where
  pub quantity : ℕ
  pub average_price : Decimal

-- The scale of _DECIMAL_SCALE.
abbrev pub decimal_scale : ℕ
decimal_scale = 18

-- The precision that `calculate_buy_position` sets for its division.
abbrev pub average_precision : ℕ
average_precision = 80

-- _quantize, in a context of the given precision.
unfoldable pub quantize_average : ℕ → Decimal → Result ProjectionError Decimal
quantize_average precision value =
    or_raise (quantize precision decimal_scale value) average_not_representable

-- The weighted average before its final rounding.
unfoldable pub weighted_average : ℕ → Decimal → ℕ → Decimal → Decimal
weighted_average current_quantity current_price fill_quantity fill_price =
    div average_precision
      (add average_precision (mul average_precision (of_ℕ current_quantity) current_price)
        (mul average_precision (of_ℕ fill_quantity) fill_price))
      (of_ℕ (current_quantity + fill_quantity))

-- The first fill of a position, in the context that is in force.
unfoldable pub opening_values : ℕ → Decimal → Result ProjectionError BuyPositionValues
unfolding quantize_average
opening_values fill_quantity fill_price = do
  average ← quantize_average default_precision fill_price
  checked ← map_error price_invalid (price average)
  ok (record { quantity = fill_quantity; average_price = checked })

-- A further fill.
unfoldable pub increased_values :
    ℕ → Decimal → ℕ → Decimal → Result ProjectionError BuyPositionValues
unfolding quantize_average
increased_values current_quantity current_price fill_quantity fill_price = do
  raise_if (current_quantity == 0) position_invalid
  average ←
      quantize_average average_precision
        (weighted_average current_quantity current_price fill_quantity fill_price)
  checked ← map_error price_invalid (price average)
  ok (record { quantity = current_quantity + fill_quantity; average_price = checked })

-- calculate_buy_position
unfoldable pub calculate_buy_position :
    ℕ → Decimal → Option ℕ → Option Decimal → Result ProjectionError BuyPositionValues
calculate_buy_position fill_quantity fill_price none none = do
  raise_if (fill_quantity == 0) fill_quantity_not_positive
  opening_values fill_quantity fill_price
calculate_buy_position fill_quantity fill_price (some q) (some p) = do
  raise_if (fill_quantity == 0) fill_quantity_not_positive
  increased_values q p fill_quantity fill_price
calculate_buy_position fill_quantity fill_price _ _ = do
  raise_if (fill_quantity == 0) fill_quantity_not_positive
  raise values_incomplete

abbrev pub is_open : PaperPositionStatus → Bool
is_open open_position = true
is_open closed_position = false

-- NewPaperPosition.__post_init__, for a new position.
unfoldable pub new_paper_position : PaperPosition → Result ProjectionError PaperPosition
new_paper_position p = do
  raise_if (not (is_open p.status)) new_position_invalid
  raise_if (p.quantity == 0 || (is_some p.closed_at || not (p.version == 1))) new_position_invalid
  raise_if (not (codes_eq p.realized_pnl.currency p.currency)) pnl_currency_invalid
  raise_if (not (is_zero p.realized_pnl.amount)) pnl_not_zero
  raise_if (ltb p.updated_at p.opened_at) position_update_precedes_opening
  raise_if (not (p.updated_at == p.opened_at)) new_position_invalid
  ok p

pub record PaperPositionBuyTransition : Type 0 where
  pub position_id : ℕ
  pub expected_version : ℕ
  pub quantity : ℕ
  pub average_cost_price : Decimal
  pub updated_at : ℕ

unfoldable pub new_buy_transition :
    PaperPositionBuyTransition → Result ProjectionError PaperPositionBuyTransition
new_buy_transition t = do
  raise_if (t.expected_version == 0 || t.quantity == 0) transition_invalid
  ok t

-- NewPositionEvent.__post_init__
unfoldable pub new_position_event : PositionEvent → Result ProjectionError PositionEvent
new_position_event e = do
  raise_if (e.sequence_no == 0 || (e.quantity_delta == 0 || ltb e.quantity_after e.quantity_delta))
      event_invalid
  raise_if
      (not (codes_eq e.realized_pnl_delta.currency e.realized_pnl_after.currency)
        || not (is_zero e.realized_pnl_delta.amount))
      event_pnl_invalid
  ok e

-- Which key an insert would repeat.
pub data Constraint : Type 0 where
  position_key open_position_key event_key event_fill_key event_sequence_key : Constraint

abbrev pub position_of_key : ℕ → Text → Text → PaperPosition → Bool
position_of_key strategy_id symbol currency p =
    p.strategy_id == strategy_id
    && (codes_eq p.symbol symbol && (codes_eq p.currency currency && is_open p.status))

-- paper_positions.get_open_by_key
abbrev pub open_by_key : ℕ → Text → Text → List PaperPosition → Option PaperPosition
open_by_key strategy_id symbol currency = find_first (position_of_key strategy_id symbol currency)

-- paper_positions.add, of an open position
unfoldable pub add_position :
    List PaperPosition → PaperPosition → Result Constraint (List PaperPosition)
add_position positions p = do
  raise_if (any (λ r. r.position_id == p.position_id) positions) position_key
  raise_if (is_some (open_by_key p.strategy_id p.symbol p.currency positions)) open_position_key
  ok (positions ++ p ∷ [])

-- position_events.get_by_fill_id
abbrev pub event_by_fill : ℕ → List PositionEvent → Option PositionEvent
event_by_fill fill_id = find_first (λ e. e.fill_id == fill_id)

-- position_events.add
unfoldable pub add_event :
    List PositionEvent → PositionEvent → Result Constraint (List PositionEvent)
add_event events e = do
  raise_if (any (λ r. r.position_event_id == e.position_event_id) events) event_key
  raise_if (any (λ r. r.fill_id == e.fill_id) events) event_fill_key
  raise_if (any (λ r. r.position_id == e.position_id && r.sequence_no == e.sequence_no) events)
      event_sequence_key
  ok (events ++ e ∷ [])

abbrev pub buy_meets : PaperPositionBuyTransition → PaperPosition → Bool
buy_meets t p =
    p.position_id == t.position_id && (is_open p.status && p.version == t.expected_version)

abbrev pub after_buy : PaperPositionBuyTransition → PaperPosition → PaperPosition
after_buy t p = record p {
  quantity = t.quantity;
  average_cost_price = t.average_cost_price;
  updated_at = t.updated_at;
  version = t.expected_version + 1;
}

abbrev pub update_positions : PaperPositionBuyTransition → List PaperPosition → List PaperPosition
update_positions t positions = map (λ p. if buy_meets t p then after_buy t p else p) positions

-- paper_positions.transition_after_buy_fill
unfoldable pub transition_after_buy_fill :
    List PaperPosition → PaperPositionBuyTransition → Result PersistenceError (List PaperPosition)
transition_after_buy_fill positions t =
    if count (buy_meets t) positions == 1
    then ok (update_positions t positions)
    else if any (λ p. p.position_id == t.position_id) positions
    then raise stale
    else raise not_found
