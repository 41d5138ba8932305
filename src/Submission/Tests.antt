-- ===== src/Submission/Tests.antt =====
-- An intent, its order, and a fill of it.
use auto_trading_v.Prelude.{ℕ, ◌+◌, ◌≡◌, ◌↔◌, refl, some, none, List, [], ◌∷◌, ok, raise, codes_eq}
use auto_trading_v.Prelude.Int.{pos}
use auto_trading_v.Text.{codes, uuid_text, hex, digit}
use auto_trading_v.Primitives.{usd}
use auto_trading_v.PaperOrders.{
  PaperOrder, accepted, internal_paper_broker_code, code_ok, is_stripped, new_paper_order,
  validate_paper_order_state, state_shape,
}
use auto_trading_v.UnitOfWork.{buy, market, day, enter_long, Store, with_unit_of_work}
use auto_trading_v.Submission.{
  PaperOrderSubmissionRequest, accepted_outcome, internal_paper_broker, internal_submit, conflict,
  trade_intent_exists, submit, submit_body, order_by_intent, new_request, new_result, rejection_of,
  validate_result, add_order, internal_paper_broker_reference,
}
use auto_trading_v.Submission.Once.{submit_once}
use auto_trading_v.Submission.Broker.{answer, IsSupported, internal_submit_total}

abbrev pub sample_store : List PaperOrder → Store
sample_store orders = record {
  trade_intents =
      record {
        trade_intent_id = 2;
        decision_id = 4;
        idempotency_key = codes "key";
        symbol = codes "ACME";
        currency = usd;
        side = buy;
        order_type = market;
        requested_quantity = 5;
        limit_price = none;
        time_in_force = day;
        created_at = 90;
      }
      ∷ [];
  strategy_decisions =
      record {
        decision_id = 4;
        candidate_id = 5;
        strategy_id = 6;
        strategy_version = codes "v1";
        action = enter_long;
      }
      ∷ [];
  candidates = record { candidate_id = 5; market_snapshot_id = 7 } ∷ [];
  market_snapshots =
      record {
        market_snapshot_id = 7;
        symbol = codes "ACME";
        last_price = record { coefficient = pos 1275; scale = 2 };
      }
      ∷ [];
  paper_orders = orders;
  paper_fills = [];
  paper_positions = [];
  position_events = [];
}

abbrev pub sample_order : PaperOrder
sample_order = record {
  order_id = 1;
  trade_intent_id = 2;
  client_order_id = 3;
  broker_code = internal_paper_broker_code;
  broker_order_ref = some (codes "internal-paper:v1:00000000-0000-0000-0000-000000000003");
  status = accepted;
  rejection_code = none;
  submitted_at = 100;
  accepted_at = some 100;
  closed_at = none;
  version = 1;
  updated_at = 100;
}

-- Stands for uuid5, at one value.
abbrev pub next_id : ℕ → ℕ
next_id n = n + 1

pub sample_submission :
    submit internal_paper_broker next_id 100 1 2 (sample_store [])
    ≡ (ok sample_order, sample_store (sample_order ∷ []))
unfolding codes_eq uuid_text hex digit code_ok is_stripped new_paper_order
    validate_paper_order_state state_shape with_unit_of_work internal_submit submit submit_body
    new_request new_result rejection_of validate_result add_order internal_paper_broker_reference
sample_submission = refl

submit_once_example :
    (order_by_intent 2 (sample_store (sample_order ∷ [])).paper_orders ≡ some sample_order)
    × (submit internal_paper_broker next_id 200 9 2 (sample_store (sample_order ∷ []))
        ≡ (raise (conflict trade_intent_exists), sample_store (sample_order ∷ [])))
submit_once_example =
    submit_once internal_paper_broker internal_paper_broker next_id 100 1 2 200 9 (sample_store [])
      sample_submission

abbrev sample_request : PaperOrderSubmissionRequest
sample_request = record {
  trade_intent_id = 2;
  client_order_id = 3;
  symbol = codes "ACME";
  currency = usd;
  side = buy;
  order_type = market;
  requested_quantity = 5;
  limit_price = none;
  time_in_force = day;
  submitted_at = 100;
}

internal_submit_total_example :
    (internal_submit sample_request ≡ ok (some (answer sample_request)))
    × (((answer sample_request).outcome ≡ accepted_outcome) ↔ IsSupported sample_request)
internal_submit_total_example = internal_submit_total sample_request
