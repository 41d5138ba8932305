-- ===== src/FillExecution/Tests.antt =====
-- An order of five shares, filled by two calls of `execute_next`.
use auto_trading_v.FillExecution.Progress.{Ready, execute_next_returns}
use auto_trading_v.Prelude.{codes_eq}
use auto_trading_v.PaperFills.{validate_fill_transition}
use auto_trading_v.Prelude.{
  ℕ, ◌+◌, ◌≤◌, ◌≡◌, refl, Option, some, none, List, [], ◌∷◌, length, arith, ok, raise,
}
use auto_trading_v.Prelude.Int.{pos}
use auto_trading_v.Decimals.{Decimal, of_ℕ, eqb, is_zero}
use auto_trading_v.Text.{Text, codes}
use auto_trading_v.Primitives.{usd}
use auto_trading_v.PaperOrders.{
  PaperOrder, PaperOrderStatus, accepted, partially_filled, filled, internal_paper_broker_code,
  code_ok,
}
use auto_trading_v.PaperFills.{
  split_plan, chunks, plan, PaperFill, Expected, key_matches, paper_fill_execution_key, check_fills,
  check_fill, validate_fill_history, new_transition, new_paper_fill,
}
use auto_trading_v.PaperFills.Transitions.{IsForward, validate_fill_transition_iff}
use auto_trading_v.Decimals.{half_even}
use auto_trading_v.Decimals.Rounding.{half_even_bounds, half_even_mono}
use auto_trading_v.Prelude.{◌*◌, ◌↔◌}
use auto_trading_v.PaperFills.Plan.{IsSplit, plan_total}
use auto_trading_v.PaperFills.History.{IsFillable, validate_fill_history_iff}
use auto_trading_v.UnitOfWork.{
  buy, market, day, enter_long, TradeIntent, Store, fills_by_order, add_fill, transition_after_fill,
  get_intent,
}
use auto_trading_v.FillExecution.{
  not_fillable, order_not_found, load_chain, prepare_step, write_step, execute_next,
}
use auto_trading_v.FillExecution.Lifecycle.{fills_of, Filled, execute_next-Filled, Reaches}
use auto_trading_v.FillExecution.Finished.{execute_next_finished}
use auto_trading_v.FillExecution.Isolation.{
  Untouched, execute_next-Untouched, start, call, Calls-Reaches,
}

abbrev price : Decimal
price = record { coefficient = pos 1275; scale = 2 }

abbrev order_at : PaperOrderStatus → ℕ → ℕ → Option ℕ → PaperOrder
order_at status version updated_at closed_at = record {
  order_id = 1;
  trade_intent_id = 2;
  client_order_id = 3;
  broker_code = internal_paper_broker_code;
  broker_order_ref = some (codes "internal-paper:v1:3");
  status = status;
  rejection_code = none;
  submitted_at = 100;
  accepted_at = some 100;
  closed_at = closed_at;
  version = version;
  updated_at = updated_at;
}

abbrev sample_intent : TradeIntent
sample_intent = record {
  trade_intent_id = 2;
  decision_id = 4;
  idempotency_key = codes "key";
  symbol = codes "ACME";
  currency = usd;
  side = buy;
  order_type = market;
  requested_quantity = 5;
  limit_price = none;
  time_in_force = day;
  created_at = 90;
}

abbrev store_with : PaperOrder → List PaperFill → Store
store_with order fills = record {
  trade_intents = sample_intent ∷ [];
  strategy_decisions =
      record {
        decision_id = 4;
        candidate_id = 5;
        strategy_id = 6;
        strategy_version = codes "v1";
        action = enter_long;
      }
      ∷ [];
  candidates = record { candidate_id = 5; market_snapshot_id = 7 } ∷ [];
  market_snapshots =
      record { market_snapshot_id = 7; symbol = codes "ACME"; last_price = price } ∷ [];
  paper_orders = order ∷ [];
  paper_fills = fills;
  paper_positions = [];
  position_events = [];
}

abbrev accepted_order : PaperOrder
accepted_order = order_at accepted 1 100 none

abbrev partial_order : PaperOrder
partial_order = order_at partially_filled 2 110 none

abbrev filled_order : PaperOrder
filled_order = order_at filled 3 120 (some 120)

-- The key is given: only its text matters here.
abbrev fill_at : ℕ → ℕ → ℕ → ℕ → Text → PaperFill
fill_at fill_id sequence quantity executed_at key = record {
  fill_id = fill_id;
  order_id = 1;
  execution_key = key;
  fill_sequence = sequence;
  quantity = quantity;
  price = price;
  fee = record { amount = of_ℕ 0; currency = usd };
  executed_at = executed_at;
}

abbrev first_key : Text
first_key =
    codes
      "order:00000000-0000-0000-0000-000000000001|fill-policy:internal-paper-split-fill|version:v1|sequence:1"

abbrev second_key : Text
second_key =
    codes
      "order:00000000-0000-0000-0000-000000000001|fill-policy:internal-paper-split-fill|version:v1|sequence:2"

abbrev first_fill : PaperFill
first_fill = fill_at 8 1 2 110 first_key

abbrev second_fill : PaperFill
second_fill = fill_at 9 2 3 120 second_key

program : Unit {0}
unfolding codes_eq chunks validate_fill_transition execute_next load_chain prepare_step write_step
    fills_by_order add_fill transition_after_fill plan key_matches paper_fill_execution_key
    validate_fill_history check_fills check_fill new_transition new_paper_fill code_ok eqb is_zero
program = tt

first_call :
    execute_next 110 8 1 (store_with accepted_order [])
    ≡ (ok (first_fill, partial_order), store_with partial_order (first_fill ∷ []))
unfolding program
first_call = refl

second_call :
    execute_next 120 9 1 (store_with partial_order (first_fill ∷ []))
    ≡ (ok (second_fill, filled_order), store_with filled_order (first_fill ∷ second_fill ∷ []))
unfolding program
second_call = refl

unknown_order :
    execute_next 110 8 2 (store_with accepted_order [])
    ≡ (raise order_not_found, store_with accepted_order [])
unfolding program
unknown_order = refl

plan_total_example : (plan 5 ≡ ok (split_plan 5)) × IsSplit 5 (chunks 5)
plan_total_example = plan_total 5 (omega arith)

execute_next-Filled_example :
    Filled 1
      (store_with partial_order (first_fill ∷ []))
      second_fill
      filled_order
      (store_with filled_order (first_fill ∷ second_fill ∷ []))
execute_next-Filled_example =
    execute_next-Filled 120 9 1 (store_with partial_order (first_fill ∷ [])) second_call

execute_next_finished_example :
    execute_next 130 10 1 (store_with filled_order (first_fill ∷ second_fill ∷ []))
    ≡ (raise (not_fillable filled), store_with filled_order (first_fill ∷ second_fill ∷ []))
unfolding fills_by_order
execute_next_finished_example =
    execute_next_finished 120 9 1 (store_with partial_order (first_fill ∷ [])) sample_intent 130 10
      (store_with filled_order (first_fill ∷ second_fill ∷ [])) second_call refl refl refl

execute_next-Untouched_example :
    Untouched 11
      (store_with partial_order (first_fill ∷ []))
      (store_with filled_order (first_fill ∷ second_fill ∷ []))
execute_next-Untouched_example =
    execute_next-Untouched 120 9 1 11 (store_with partial_order (first_fill ∷ [])) (omega arith)
      second_call

fresh_order : fills_of (store_with accepted_order []) 1 ≡ []
unfolding program
fresh_order = refl

Calls-Reaches_example :
    (2 ≤ 2)
    × (intent : TradeIntent) × (get_intent (store_with partial_order (first_fill ∷ [])) 2
        ≡ some intent)
    × Reaches intent.requested_quantity 5 filled
Calls-Reaches_example =
    Calls-Reaches 120 9 1 (store_with accepted_order [])
      (store_with partial_order (first_fill ∷ []))
      (store_with filled_order (first_fill ∷ second_fill ∷ [])) (first_fill ∷ []) second_fill
      filled_order fresh_order (call 110 8 first_fill partial_order start first_call) second_call

abbrev five_shares : Expected
five_shares = record {
  order_id = 1;
  accepted_at = 100;
  plan = split_plan 5;
  reference_price = price;
  fee_currency = usd;
}

five_shares_planned : 1 ≤ length five_shares.plan.quantities
unfolding program
five_shares_planned = omega arith

validate_fill_history_iff_example :
    (validate_fill_history partially_filled five_shares (first_fill ∷ []) ≡ ok 2)
    ↔ IsFillable partially_filled five_shares (first_fill ∷ []) 2
validate_fill_history_iff_example =
    validate_fill_history_iff partially_filled five_shares (first_fill ∷ []) 2 five_shares_planned

validate_fill_transition_iff_example :
    (validate_fill_transition partially_filled filled (some 120) 120 ≡ ok tt)
    ↔ IsForward partially_filled filled (some 120) 120
validate_fill_transition_iff_example =
    validate_fill_transition_iff partially_filled filled (some 120) 120

half_even_bounds_example :
    (2 * 25 ≤ 2 * (half_even 25 10 * 10) + 10) × (2 * (half_even 25 10 * 10) ≤ 2 * 25 + 10)
half_even_bounds_example = half_even_bounds 25 10 (omega arith)

half_even_mono_example : half_even 25 10 ≤ half_even 35 10
half_even_mono_example = half_even_mono 25 35 10 (omega arith) (omega arith)

sample-Ready : Ready 110 8 1 (store_with accepted_order [])
unfolding program
sample-Ready = record {
  chain = record {
    order = accepted_order;
    intent = record {
      trade_intent_id = 2;
      decision_id = 4;
      idempotency_key = codes "key";
      symbol = codes "ACME";
      currency = usd;
      side = buy;
      order_type = market;
      requested_quantity = 5;
      limit_price = none;
      time_in_force = day;
      created_at = 90;
    };
    snapshot = record { market_snapshot_id = 7; symbol = codes "ACME"; last_price = price };
  };
  loaded = refl;
  version = omega arith;
  in_time = omega arith;
  accepted_at = 100;
  acceptance = refl;
  total = 0;
  history = refl;
  stored_once = refl;
  unused = refl;
}

execute_next_returns_example :
    (fill : PaperFill) × (order : PaperOrder) × (s' : Store) × (execute_next 110 8 1
        (store_with accepted_order [])
      ≡ (ok (fill, order), s'))
execute_next_returns_example =
    execute_next_returns 110 8 1 (store_with accepted_order []) sample-Ready
