-- ===== src/TradeIntents.antt =====
-- domain/trade_intents: the policy (risk.py), the quantity that it allows (sizing.py), the key of an
-- intent (idempotency.py); application/contracts/trade_intents.py: the contract of a row.
pub mod Service
pub mod Tests
pub mod Sizing
pub mod Batch
pub mod Calls
pub mod Outcome
use auto_trading_v.Prelude.{
  ℕ, ◌+◌, Bool, true, false, ◌&&◌, ◌||◌, not, Option, none, some, List, [], ◌∷◌, ◌++◌, map, length,
  any, ltb, leb, ◌==◌, is_none, is_some, codes_eq, if◌then◌else◌, Result, ok, raise, raise_if,
  map_error, ◌>>=◌, ◌>>◌,
}
use auto_trading_v.Decimals.{Decimal, of_ℕ, mul, div, floor, is_positive, lt_dec}
use auto_trading_v.Text.{Text, codes, uuid_text}
use auto_trading_v.Primitives.{Money, usd}
use auto_trading_v.PaperOrders.{is_space, code_ok}
use auto_trading_v.UnitOfWork.{
  TradeSide, buy, TradeOrderType, market, limit, TimeInForce, day, TradeIntent, PersistenceError,
  duplicate,
}
use auto_trading_v.FillExecution.{is_buy, is_market}

pub data RiskOutcome : Type 0 where
  approved declined : RiskOutcome

abbrev pub is_approved : RiskOutcome → Bool
is_approved approved = true
is_approved declined = false

pub data TradeIntentError : Type 0 where
  policy_name_invalid policy_version_invalid policy_notional_invalid : TradeIntentError
  policy_order_shape_invalid policy_quantity_rule_invalid : TradeIntentError
  result_policy_invalid approved_result_invalid rejected_result_invalid : TradeIntentError
  idempotency_key_invalid requested_quantity_not_positive : TradeIntentError
  market_with_limit_price limit_without_price : TradeIntentError

-- FIXED_USD_NOTIONAL
abbrev pub fixed_usd_notional : Text
fixed_usd_notional = codes "FIXED_USD_NOTIONAL"

pub record FixedNotionalRiskPolicy : Type 0 where
  pub name : Text
  pub version : Text
  pub maximum_notional : Money
  pub side : TradeSide
  pub order_type : TradeOrderType
  pub time_in_force : TimeInForce
  pub minimum_quantity : ℕ
  pub fractional_quantity_allowed : Bool

-- FixedNotionalRiskPolicy.__post_init__. DAY is the only time in force.
unfoldable pub new_policy :
    FixedNotionalRiskPolicy → Result TradeIntentError FixedNotionalRiskPolicy
new_policy p = do
  raise_if (not (codes_eq p.name fixed_usd_notional)) policy_name_invalid
  raise_if (not (code_ok 64 p.version)) policy_version_invalid
  raise_if
      (not (codes_eq p.maximum_notional.currency usd)
        || not (is_positive p.maximum_notional.amount))
      policy_notional_invalid
  raise_if (not (is_buy p.side) || not (is_market p.order_type)) policy_order_shape_invalid
  raise_if (not (p.minimum_quantity == 1) || p.fractional_quantity_allowed)
      policy_quantity_rule_invalid
  ok p

-- INITIAL_FIXED_USD_NOTIONAL_POLICY
abbrev pub initial_policy : FixedNotionalRiskPolicy
initial_policy = record {
  name = fixed_usd_notional;
  version = codes "v1";
  maximum_notional = record { amount = of_ℕ 1000; currency = usd };
  side = buy;
  order_type = market;
  time_in_force = day;
  minimum_quantity = 1;
  fractional_quantity_allowed = false;
}

abbrev pub fixed_notional_approved : Text
fixed_notional_approved = codes "FIXED_NOTIONAL_APPROVED"

abbrev pub quantity_below_minimum : Text
quantity_below_minimum = codes "QUANTITY_BELOW_MINIMUM"

pub record EntrySizingResult : Type 0 where
  pub policy_name : Text
  pub policy_version : Text
  pub outcome : RiskOutcome
  pub requested_quantity : Option ℕ
  pub estimated_notional : Option Money
  pub reason_codes : List Text

-- reason_codes == (code,)
abbrev pub is_only : List Text → Text → Bool
is_only [] code = false
is_only (c ∷ []) code = codes_eq c code
is_only (_ ∷ _ ∷ _) code = false

abbrev pub at_least_one : Option ℕ → Bool
at_least_one none = false
at_least_one (some q) = leb 1 q

abbrev pub not_negative : Option Money → Bool
not_negative none = false
not_negative (some m) = not (lt_dec m.amount (of_ℕ 0))

-- EntrySizingResult.__post_init__
unfoldable pub new_sizing : EntrySizingResult → Result TradeIntentError EntrySizingResult
new_sizing r =
    raise_if (length r.policy_name == 0 || length r.policy_version == 0) result_policy_invalid
    >> (if is_approved r.outcome
        then raise_if
            (not (at_least_one r.requested_quantity)
              || not (not_negative r.estimated_notional)
              || not (is_only r.reason_codes fixed_notional_approved))
            approved_result_invalid
        else raise_if
            (is_some r.requested_quantity
              || is_some r.estimated_notional
              || not (is_only r.reason_codes quantity_below_minimum))
            rejected_result_invalid)
    >> ok r

-- The precision of the local context.
abbrev pub sizing_precision : ℕ
sizing_precision = 38

-- int((maximum / price).to_integral_value(rounding=ROUND_FLOOR))
unfoldable pub requested_value : Decimal → FixedNotionalRiskPolicy → ℕ
requested_value reference_price policy =
    floor (div sizing_precision policy.maximum_notional.amount reference_price)

abbrev pub rejected_sizing : FixedNotionalRiskPolicy → EntrySizingResult
rejected_sizing policy = record {
  policy_name = policy.name;
  policy_version = policy.version;
  outcome = declined;
  requested_quantity = none;
  estimated_notional = none;
  reason_codes = quantity_below_minimum ∷ [];
}

abbrev pub approved_sizing : Decimal → FixedNotionalRiskPolicy → ℕ → EntrySizingResult
approved_sizing reference_price policy quantity = record {
  policy_name = policy.name;
  policy_version = policy.version;
  outcome = approved;
  requested_quantity = some quantity;
  estimated_notional = some (record {
    amount = mul sizing_precision reference_price (of_ℕ quantity);
    currency = policy.maximum_notional.currency;
  });
  reason_codes = fixed_notional_approved ∷ [];
}

-- plan_fixed_notional_quantity
unfoldable pub plan_fixed_notional_quantity :
    Decimal → FixedNotionalRiskPolicy → Result TradeIntentError EntrySizingResult
plan_fixed_notional_quantity reference_price policy =
    let quantity = requested_value reference_price policy in
    if ltb quantity policy.minimum_quantity
    then new_sizing (rejected_sizing policy)
    else new_sizing (approved_sizing reference_price policy quantity)

-- policy.name.casefold().replace("_", "-"), of a name in ASCII.
abbrev pub segment_char : ℕ → ℕ
segment_char c = if leb b'A' c && leb c b'Z' then c + 32 else if c == b'_' then b'-' else c

-- The text of a key, before it is tested.
unfoldable pub intent_key_text : ℕ → FixedNotionalRiskPolicy → Text
unfolding uuid_text
intent_key_text decision_id policy =
    codes "decision:"
    ++ (uuid_text decision_id
        ++ (codes "|intent-policy:"
            ++ (map segment_char policy.name ++ (codes "|version:" ++ policy.version))))

unfoldable pub trade_intent_idempotency_key :
    ℕ → FixedNotionalRiskPolicy → Result TradeIntentError Text
unfolding intent_key_text
trade_intent_idempotency_key decision_id policy =
    let key = intent_key_text decision_id policy in
    raise_if (ltb 160 (length key) || any is_space key) idempotency_key_invalid >> ok key

-- Whether the order type and the limit price go together.
abbrev pub limit_price_ok : TradeOrderType → Option Decimal → Result TradeIntentError (Unit {0})
limit_price_ok market limit_price = raise_if (is_some limit_price) market_with_limit_price
limit_price_ok limit limit_price = raise_if (is_none limit_price) limit_without_price

-- NewTradeIntent.__post_init__
unfoldable pub new_trade_intent : TradeIntent → Result TradeIntentError TradeIntent
new_trade_intent t =
    raise_if (not (code_ok 160 t.idempotency_key) || any is_space t.idempotency_key)
      idempotency_key_invalid
    >> raise_if (t.requested_quantity == 0) requested_quantity_not_positive
    >> limit_price_ok t.order_type t.limit_price
    >> ok t

-- The unique keys of an intent.
abbrev pub same_intent : TradeIntent → TradeIntent → Bool
same_intent t u =
    t.trade_intent_id == u.trade_intent_id
    || (t.decision_id == u.decision_id || codes_eq t.idempotency_key u.idempotency_key)

-- trade_intents.add
unfoldable pub add_intent :
    List TradeIntent → TradeIntent → Result PersistenceError (List TradeIntent)
add_intent intents t = do raise_if (any (same_intent t) intents) duplicate; ok (intents ++ t ∷ [])
