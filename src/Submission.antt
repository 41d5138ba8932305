-- ===== src/Submission.antt =====
-- application/services/paper_order.py: one order is submitted for a stored intent. Also the request
-- and the answer of application/contracts/paper_orders.py, the port PaperBroker of
-- application/ports/paper_broker.py and its adapter adapters/brokers/internal_paper.py.
pub mod Broker
pub mod Once
pub mod Tests
use auto_trading_v.Prelude.{
  ℕ, Bool, true, false, ◌&&◌, ◌||◌, not, Option, none, some, List, [], ◌∷◌, ◌++◌, find_first, any,
  ltb, ◌==◌, is_none, is_some, codes_eq, if◌then◌else◌, Result, ok, raise, raise_if, or_raise,
  map_error, ◌>>=◌, ◌>>◌,
}
use auto_trading_v.Text.{Text, codes, uuid_text}
use auto_trading_v.Decimals.{Decimal}
use auto_trading_v.Primitives.{usd}
use auto_trading_v.PaperOrders.{
  PaperOrderStatus, accepted, rejected, PaperOrderError, PaperOrder, new_paper_order, code_ok,
  optional_code_ok, internal_paper_broker_code,
}
use auto_trading_v.UnitOfWork.{
  TradeSide, TradeOrderType, market, limit, TimeInForce, TradeIntent, Store, Ending, committed,
  with_unit_of_work, get_intent,
}
use auto_trading_v.FillExecution.{is_buy, is_market}

pub data PaperBrokerSubmissionOutcome : Type 0 where
  accepted_outcome rejected_outcome : PaperBrokerSubmissionOutcome

abbrev pub is_accepted : PaperBrokerSubmissionOutcome → Bool
is_accepted accepted_outcome = true
is_accepted rejected_outcome = false

pub record PaperOrderSubmissionRequest : Type 0 where
  pub trade_intent_id : ℕ
  pub client_order_id : ℕ
  pub symbol : Text
  pub currency : Text
  pub side : TradeSide
  pub order_type : TradeOrderType
  pub requested_quantity : ℕ
  pub limit_price : Option Decimal
  pub time_in_force : TimeInForce
  pub submitted_at : ℕ

pub data ContractError : Type 0 where
  requested_quantity_not_positive market_with_limit_price limit_without_price : ContractError
  broker_code_invalid broker_order_ref_invalid rejection_code_invalid : ContractError
  accepted_result_invalid rejected_result_invalid : ContractError

-- Whether the order type and the limit price go together.
abbrev pub limit_price_ok : TradeOrderType → Option Decimal → Result ContractError (Unit {0})
limit_price_ok market limit_price = raise_if (is_some limit_price) market_with_limit_price
limit_price_ok limit limit_price = raise_if (is_none limit_price) limit_without_price

-- PaperOrderSubmissionRequest.__post_init__
unfoldable pub new_request :
    PaperOrderSubmissionRequest → Result ContractError PaperOrderSubmissionRequest
new_request r = do
  raise_if (r.requested_quantity == 0) requested_quantity_not_positive
  limit_price_ok r.order_type r.limit_price
  ok r

pub record PaperOrderSubmissionResult : Type 0 where
  pub outcome : PaperBrokerSubmissionOutcome
  pub broker_code : Text
  pub broker_order_ref : Option Text
  pub processed_at : ℕ
  pub rejection_code : Option Text

-- The fields that an outcome asks for.
abbrev pub outcome_ok : PaperOrderSubmissionResult → Result ContractError (Unit {0})
outcome_ok r =
    if is_accepted r.outcome
    then raise_if (is_none r.broker_order_ref || is_some r.rejection_code) accepted_result_invalid
    else raise_if (is_none r.rejection_code) rejected_result_invalid

-- PaperOrderSubmissionResult.__post_init__
unfoldable pub new_result :
    PaperOrderSubmissionResult → Result ContractError PaperOrderSubmissionResult
new_result r = do
  raise_if (not (code_ok 32 r.broker_code)) broker_code_invalid
  raise_if (not (optional_code_ok 160 r.broker_order_ref)) broker_order_ref_invalid
  raise_if (not (optional_code_ok 64 r.rejection_code)) rejection_code_invalid
  outcome_ok r
  ok r

-- What leaves a broker as an exception: its own error with a category, or a contract's.
pub data BrokerFailure : Type 0 where
  broker_error : Text → BrokerFailure
  contract_error : ContractError → BrokerFailure

-- The port. `none` is an answer that is no PaperOrderSubmissionResult.
pub record PaperBroker : Type 0 where
  pub broker_code : Text
  pub submit :
      PaperOrderSubmissionRequest → Result BrokerFailure (Option PaperOrderSubmissionResult)

-- internal_paper_broker_reference
unfoldable pub internal_paper_broker_reference : ℕ → Text
internal_paper_broker_reference client_order_id =
    codes "internal-paper:v1:" ++ uuid_text client_order_id

abbrev pub unsupported_currency : Text
unsupported_currency = codes "UNSUPPORTED_CURRENCY"

abbrev pub unsupported_side : Text
unsupported_side = codes "UNSUPPORTED_SIDE"

abbrev pub unsupported_order_type : Text
unsupported_order_type = codes "UNSUPPORTED_ORDER_TYPE"

-- The reason to refuse a request, if there is one.
unfoldable pub rejection_of : PaperOrderSubmissionRequest → Option Text
rejection_of r =
    if not (codes_eq r.currency usd)
    then some unsupported_currency
    else if not (is_buy r.side)
    then some unsupported_side
    else if not (is_market r.order_type)
    then some unsupported_order_type
    else none

-- InternalPaperBroker.submit
unfoldable pub internal_submit :
    PaperOrderSubmissionRequest → Result BrokerFailure (Option PaperOrderSubmissionResult)
unfolding rejection_of internal_paper_broker_reference new_result
internal_submit r = do
  result ← map_error contract_error (
      new_result (record {
        outcome = if is_none (rejection_of r) then accepted_outcome else rejected_outcome;
        broker_code = internal_paper_broker_code;
        broker_order_ref = some (internal_paper_broker_reference r.client_order_id);
        processed_at = r.submitted_at;
        rejection_code = rejection_of r;
      }))
  ok (some result)

-- InternalPaperBroker
abbrev pub internal_paper_broker : PaperBroker
internal_paper_broker = record {
  broker_code = internal_paper_broker_code;
  submit = internal_submit;
}

pub data ConflictCategory : Type 0 where
  trade_intent_exists client_order_id_exists broker_reference_exists duplicate_record :
      ConflictCategory

pub data InvalidResultReason : Type 0 where
  invalid_contract broker_code_mismatch processed_at_precedes_submission : InvalidResultReason

pub data SubmissionError : Type 0 where
  trade_intent_not_found : SubmissionError
  conflict : ConflictCategory → SubmissionError
  submission_failed : Text → SubmissionError
  invalid_broker_result : InvalidResultReason → SubmissionError
  contract_invalid : ContractError → SubmissionError
  order_invalid : PaperOrderError → SubmissionError

abbrev pub failure_error : BrokerFailure → SubmissionError
failure_error (broker_error category) = submission_failed category
failure_error (contract_error e) = contract_invalid e

-- _validate_result_or_rollback
unfoldable pub validate_result :
    Text
    → PaperOrderSubmissionRequest
    → Option PaperOrderSubmissionResult
    → Result SubmissionError PaperOrderSubmissionResult
validate_result broker_code request none = raise (invalid_broker_result invalid_contract)
validate_result broker_code request (some r) = do
  raise_if (not (codes_eq r.broker_code broker_code)) (invalid_broker_result broker_code_mismatch)
  raise_if (ltb r.processed_at request.submitted_at)
      (invalid_broker_result processed_at_precedes_submission)
  ok r

abbrev pub request_of : TradeIntent → ℕ → ℕ → PaperOrderSubmissionRequest
request_of intent client_order_id now = record {
  trade_intent_id = intent.trade_intent_id;
  client_order_id = client_order_id;
  symbol = intent.symbol;
  currency = intent.currency;
  side = intent.side;
  order_type = intent.order_type;
  requested_quantity = intent.requested_quantity;
  limit_price = intent.limit_price;
  time_in_force = intent.time_in_force;
  submitted_at = now;
}

-- _new_order
abbrev pub order_of : ℕ → PaperOrderSubmissionRequest → PaperOrderSubmissionResult → PaperOrder
order_of order_id request r = record {
  order_id = order_id;
  trade_intent_id = request.trade_intent_id;
  client_order_id = request.client_order_id;
  broker_code = r.broker_code;
  broker_order_ref = r.broker_order_ref;
  status = if is_accepted r.outcome then accepted else rejected;
  rejection_code = r.rejection_code;
  submitted_at = request.submitted_at;
  accepted_at = if is_accepted r.outcome then some r.processed_at else none;
  closed_at = if is_accepted r.outcome then none else some r.processed_at;
  version = 1;
  updated_at = r.processed_at;
}

-- paper_orders.get_by_trade_intent
abbrev pub order_by_intent : ℕ → List PaperOrder → Option PaperOrder
order_by_intent trade_intent_id = find_first (λ o. o.trade_intent_id == trade_intent_id)

-- paper_orders.get_by_client_order_id
abbrev pub order_by_client : ℕ → List PaperOrder → Option PaperOrder
order_by_client client_order_id = find_first (λ o. o.client_order_id == client_order_id)

abbrev pub has_reference : Text → Text → PaperOrder → Bool
has_reference broker_code reference o = elim o.broker_order_ref [
  | none ↦ false
  | some r ↦ codes_eq o.broker_code broker_code && codes_eq r reference
]

-- paper_orders.get_by_broker_reference, where there is a reference.
abbrev pub reference_taken : Text → Option Text → List PaperOrder → Bool
reference_taken broker_code none orders = false
reference_taken broker_code (some r) orders = any (has_reference broker_code r) orders

-- paper_orders.add
unfoldable pub add_order : List PaperOrder → PaperOrder → Result ConflictCategory (List PaperOrder)
add_order orders o = do
  raise_if (any (λ r. r.order_id == o.order_id) orders) duplicate_record
  raise_if (any (λ r. r.trade_intent_id == o.trade_intent_id) orders) duplicate_record
  raise_if (any (λ r. r.client_order_id == o.client_order_id) orders) duplicate_record
  raise_if (reference_taken o.broker_code o.broker_order_ref orders) duplicate_record
  ok (orders ++ o ∷ [])

module _ (broker : PaperBroker) (client_order_id_for : ℕ → ℕ) where
  -- PaperOrderSubmissionService.submit, inside the `with` block. `now` is what the clock answers,
  -- `order_id` what the factory of identifiers makes.
  unfoldable pub submit_body : ℕ → ℕ → ℕ → Store → Result SubmissionError (Ending PaperOrder)
  submit_body now order_id trade_intent_id s = do
    intent ← or_raise (get_intent s trade_intent_id) trade_intent_not_found
    raise_if (is_some (order_by_intent trade_intent_id s.paper_orders))
        (conflict trade_intent_exists)
    let client_order_id = client_order_id_for trade_intent_id
    raise_if (is_some (order_by_client client_order_id s.paper_orders))
        (conflict client_order_id_exists)
    request ← map_error contract_invalid (new_request (request_of intent client_order_id now))
    answer ← map_error failure_error (broker.submit request)
    result ← validate_result broker.broker_code request answer
    raise_if (reference_taken result.broker_code result.broker_order_ref s.paper_orders)
        (conflict broker_reference_exists)
    order ← map_error order_invalid (new_paper_order (order_of order_id request result))
    orders ← map_error conflict (add_order s.paper_orders order)
    ok (committed order (record s { paper_orders = orders }))

  -- PaperOrderSubmissionService.submit
  unfoldable pub submit : ℕ → ℕ → ℕ → Store → Result SubmissionError PaperOrder × Store
  unfolding with_unit_of_work submit_body
  submit now order_id trade_intent_id s =
      with_unit_of_work s (submit_body now order_id trade_intent_id)
