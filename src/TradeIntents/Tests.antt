-- ===== src/TradeIntents/Tests.antt =====
-- A decision to enter at a price of 12.75 USD, a decision to observe, and a second call for them.
use auto_trading_v.Prelude.{
  codes_eq, ℕ, ◌+◌, ◌*◌, ◌^◌, ◌≤◌, ◌<◌, ◌≡◌, refl, none, List, [], ◌∷◌, ok, raise, arith, true,
  false, ◌==◌, if◌then◌else◌,
}
use auto_trading_v.Prelude.Int.{pos, ◌*ℤ◌}
use auto_trading_v.Decimals.{Decimal, div, mul, floor, is_positive, le_dec}
use auto_trading_v.Text.{codes}
use auto_trading_v.Primitives.{usd}
use auto_trading_v.PaperOrders.{code_ok}
use auto_trading_v.UnitOfWork.{buy, market, day, enter_long, observe, TradeIntent, Store}
use auto_trading_v.Strategies.{StrategyDefinition}
use auto_trading_v.TradeIntents.{
  initial_policy, new_policy, rejected_sizing, plan_fixed_notional_quantity, requested_value,
  new_sizing,
}
use auto_trading_v.TradeIntents.Service.{intent_conflict, create_all}
use auto_trading_v.TradeIntents.Sizing.{approved_at, plan_fixed_notional_quantity_exact}
use auto_trading_v.TradeIntents.Calls.{create_all_once}
use auto_trading_v.TradeIntents.Outcome.{Created, create_all-Created}

abbrev last_price : Decimal
last_price = record { coefficient = pos 1275; scale = 2 }

valid_policy : new_policy initial_policy ≡ ok initial_policy
unfolding new_policy code_ok is_positive codes_eq
valid_policy = refl

plan_fixed_notional_quantity_exact_example :
    (q : ℕ) × (q * 1275 ≤ 1000 * 10 ^ 2)
    × (1000 * 10 ^ 2 < (q + 1) * 1275)
    × (plan_fixed_notional_quantity last_price initial_policy
        ≡ ok (
            if q == 0
            then rejected_sizing initial_policy
            else approved_at initial_policy q (record { coefficient = pos (1275 * q); scale = 2 })))
plan_fixed_notional_quantity_exact_example =
    plan_fixed_notional_quantity_exact initial_policy last_price 1000 1275 valid_policy refl refl
      (omega arith) (omega arith)

abbrev entering : StrategyDefinition
entering = record {
  strategy_id = 6;
  strategy_version = codes "v1";
  source_filter_set_id = 9;
  source_evaluation_version = codes "v1";
  observation_only = false;
}

abbrev observing : StrategyDefinition
observing = record entering { strategy_id = 11; observation_only = true }

abbrev pub strategies : List StrategyDefinition
strategies = entering ∷ observing ∷ []

abbrev pub store_with : List TradeIntent → Store
store_with intents = record {
  trade_intents = intents;
  strategy_decisions =
      record {
        decision_id = 4;
        candidate_id = 5;
        strategy_id = 6;
        strategy_version = codes "v1";
        action = enter_long;
      }
      ∷ record {
        decision_id = 12;
        candidate_id = 5;
        strategy_id = 11;
        strategy_version = codes "v1";
        action = observe;
      }
      ∷ [];
  candidates = record { candidate_id = 5; market_snapshot_id = 7 } ∷ [];
  market_snapshots =
      record { market_snapshot_id = 7; symbol = codes "ACME"; last_price = last_price } ∷ [];
  paper_orders = [];
  paper_fills = [];
  paper_positions = [];
  position_events = [];
}

abbrev pub intent : TradeIntent
intent = record {
  trade_intent_id = 40;
  decision_id = 4;
  idempotency_key =
      codes
        "decision:00000000-0000-0000-0000-000000000004|intent-policy:fixed-usd-notional|version:v1";
  symbol = codes "ACME";
  currency = usd;
  side = buy;
  order_type = market;
  requested_quantity = 78;
  limit_price = none;
  time_in_force = day;
  created_at = 90;
}

abbrev pub id_from : ℕ → ℕ → ℕ
id_from first i = first + i

pub first_call :
    create_all initial_policy (id_from 40) strategies 90 5 (store_with [])
    ≡ (ok (intent ∷ []), store_with (intent ∷ []))
unfolding create_all plan_fixed_notional_quantity requested_value new_sizing div mul floor le_dec
    ◌*ℤ◌ code_ok codes_eq
first_call = refl

create_all-Created_example :
    Created initial_policy strategies 5 (store_with []) (intent ∷ []) (store_with (intent ∷ []))
create_all-Created_example =
    create_all-Created initial_policy strategies (id_from 40) 90 5 (store_with []) first_call

create_all_once_example :
    (d : StrategyDefinition) × (create_all initial_policy
        (id_from 60)
        strategies
        95
        5
        (store_with (intent ∷ []))
      ≡ (raise (intent_conflict d), store_with (intent ∷ [])))
create_all_once_example =
    create_all_once initial_policy strategies (id_from 40) (id_from 60) 90 95 5 (store_with [])
      first_call
