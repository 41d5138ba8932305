-- ===== src/Projector/Tests.antt =====
-- Two fills of one order, projected to one position.
use auto_trading_v.Prelude.{ℕ, ◌≡◌, refl, some, none, List, [], ◌∷◌, ok, codes_eq}
use auto_trading_v.Prelude.Int.{pos, ◌+ℤ◌, ◌-ℤ◌, ◌*ℤ◌}
use auto_trading_v.Decimals.{
  Decimal, of_ℕ, eqb, is_zero, is_positive, quantize, add, mul, div, half_even, excess, half_even,
  fix,
}
use auto_trading_v.Text.{codes}
use auto_trading_v.Primitives.{usd, price}
use auto_trading_v.PaperOrders.{filled, internal_paper_broker_code}
use auto_trading_v.PaperFills.{PaperFill}
use auto_trading_v.UnitOfWork.{
  buy, market, day, enter_long, Store, PaperPosition, PositionEvent, opened, increased,
  open_position, PositionEventType, with_unit_of_work,
}
use auto_trading_v.Positions.{
  calculate_buy_position, opening_values, increased_values, quantize_average, weighted_average,
  new_paper_position, new_buy_transition, new_position_event, add_position, add_event,
  transition_after_buy_fill,
}
use auto_trading_v.Projector.{
  ProjectionResult, applied, project_fill, project_body, project_new, apply_source, result_of,
  already_applied, open_new_position, increase_position, load_projection_source,
  validate_projection_source, handle, resolve_duplicate,
}
use auto_trading_v.Projector.Once.{project_fill_once}
use auto_trading_v.Projector.Balance.{Balanced, project_fill-Balanced}

abbrev last_price : Decimal
last_price = record { coefficient = pos 1275; scale = 2 }

abbrev fill_at : ℕ → ℕ → ℕ → ℕ → PaperFill
fill_at fill_id sequence quantity executed_at = record {
  fill_id = fill_id;
  order_id = 1;
  execution_key = codes "key";
  fill_sequence = sequence;
  quantity = quantity;
  price = last_price;
  fee = record { amount = of_ℕ 0; currency = usd };
  executed_at = executed_at;
}

abbrev store_with : List PaperPosition → List PositionEvent → Store
store_with positions events = record {
  trade_intents =
      record {
        trade_intent_id = 2;
        decision_id = 4;
        idempotency_key = codes "key";
        symbol = codes "ACME";
        currency = usd;
        side = buy;
        order_type = market;
        requested_quantity = 5;
        limit_price = none;
        time_in_force = day;
        created_at = 90;
      }
      ∷ [];
  strategy_decisions =
      record {
        decision_id = 4;
        candidate_id = 5;
        strategy_id = 6;
        strategy_version = codes "v1";
        action = enter_long;
      }
      ∷ [];
  candidates = record { candidate_id = 5; market_snapshot_id = 7 } ∷ [];
  market_snapshots =
      record { market_snapshot_id = 7; symbol = codes "ACME"; last_price = last_price } ∷ [];
  paper_orders =
      (record {
        order_id = 1;
        trade_intent_id = 2;
        client_order_id = 3;
        broker_code = internal_paper_broker_code;
        broker_order_ref = some (codes "internal-paper:v1:3");
        status = filled;
        rejection_code = none;
        submitted_at = 100;
        accepted_at = some 100;
        closed_at = some 120;
        version = 3;
        updated_at = 120;
      })
      ∷ [];
  paper_fills = fill_at 8 1 2 110 ∷ fill_at 9 2 3 120 ∷ [];
  paper_positions = positions;
  position_events = events;
}

program : Unit {0}
unfolding half_even excess fix codes_eq eqb is_zero is_positive quantize add mul div price
    calculate_buy_position opening_values increased_values quantize_average weighted_average
    new_paper_position new_buy_transition new_position_event add_position add_event
    transition_after_buy_fill with_unit_of_work project_fill project_body project_new apply_source
    open_new_position increase_position load_projection_source validate_projection_source handle
    resolve_duplicate ◌+ℤ◌ ◌-ℤ◌ ◌*ℤ◌
program = tt

abbrev pub empty : Store
empty = store_with [] []

abbrev average : Decimal
average = record { coefficient = pos 12750000000000000000; scale = 18 }

abbrev held : ℕ → ℕ → ℕ → PaperPosition
held quantity version updated_at = record {
  position_id = 20;
  strategy_id = 6;
  symbol = codes "ACME";
  currency = usd;
  status = open_position;
  quantity = quantity;
  average_cost_price = average;
  realized_pnl = record { amount = of_ℕ 0; currency = usd };
  opened_at = 110;
  closed_at = none;
  version = version;
  updated_at = updated_at;
}

abbrev event : ℕ → ℕ → ℕ → PositionEventType → ℕ → ℕ → ℕ → PositionEvent
event event_id fill_id sequence type delta after occurred_at = record {
  position_event_id = event_id;
  position_id = 20;
  fill_id = fill_id;
  sequence_no = sequence;
  event_type = type;
  quantity_delta = delta;
  quantity_after = after;
  average_cost_after = average;
  realized_pnl_delta = record { amount = of_ℕ 0; currency = usd };
  realized_pnl_after = record { amount = of_ℕ 0; currency = usd };
  occurred_at = occurred_at;
}

abbrev pub first_event : PositionEvent
first_event = event 30 8 1 opened 2 2 110

abbrev second_event : PositionEvent
second_event = event 31 9 2 increased 3 5 120

abbrev pub first_store : Store
first_store = store_with (held 2 1 110 ∷ []) (first_event ∷ [])

abbrev pub second_store : Store
second_store = store_with (held 5 2 120 ∷ []) (first_event ∷ second_event ∷ [])

abbrev pub second_result : ProjectionResult
second_result = result_of second_event applied

pub first_call :
    project_fill 20 30 8 empty empty ≡ (ok (result_of first_event applied), first_store)
unfolding program
first_call = refl

pub second_call : project_fill 21 31 9 first_store first_store ≡ (ok second_result, second_store)
unfolding program
second_call = refl

pub empty-Balanced : Balanced empty
empty-Balanced = (tt, tt)

first-Balanced : Balanced first_store
first-Balanced = project_fill-Balanced 20 30 8 empty empty empty-Balanced first_call

project_fill_once_example :
    project_fill 22 32 9 second_store second_store
    ≡ (ok (record second_result { outcome = already_applied }), second_store)
project_fill_once_example =
    project_fill_once 21 31 9 22 32 first_store second_store first_store second_call refl

project_fill-Balanced_example : Balanced second_store
project_fill-Balanced_example =
    project_fill-Balanced 21 31 9 first_store first_store first-Balanced second_call
