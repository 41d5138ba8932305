-- ===== src/PaperFills.antt =====
-- domain/paper_fills: the split-fill plan, the keys of fills, the validation of a stored history,
-- and the contracts of application/contracts/paper_fills.py.
pub mod Plan
pub mod Keys
pub mod History
pub mod Transitions
pub mod Contracts
use auto_trading_v.Prelude.{
  ℕ, zero, suc, ◌+◌, ◌-◌, ◌/◌, Bool, true, false, ◌&&◌, ◌||◌, not, Option, none, some, List, [],
  ◌∷◌, ◌++◌, length, get_elem?, any, sum_of, ltb, leb, ◌==◌, is_none, is_some, codes_eq,
  if◌then◌else◌, Result, ok, raise, raise_if, or_raise, ◌>>=◌, ◌>>◌,
}
use auto_trading_v.Prelude.Int.{pos, ltb_ℤ}
use auto_trading_v.Decimals.{Decimal, eqb, is_zero}
use auto_trading_v.Text.{Text, codes, decimal, uuid_text}
use auto_trading_v.Primitives.{Money}
use auto_trading_v.PaperOrders.{
  PaperOrderStatus, created, accepted, partially_filled, filled, cancelled, rejected, expired,
  status_eq, code_ok,
}

-- PaperFillHistoryValidationError's reasons. `index_error` is Python's, for an index out of range.
pub data HistoryReason : Type 0 where
  too_many_fills order_mismatch sequence_mismatch execution_key_mismatch : HistoryReason
  quantity_mismatch price_mismatch nonzero_fee fee_currency_mismatch : HistoryReason
  execution_precedes_acceptance overfill accepted_order_has_fills : HistoryReason
  partial_order_history_shape partial_order_not_remaining order_status_not_fillable : HistoryReason
  index_error : HistoryReason

pub data PaperFillError : Type 0 where
  policy_name_invalid policy_version_invalid quantities_invalid : PaperFillError
  quantity_not_positive quantities_mismatch requested_not_positive : PaperFillError
  transition_invalid partial_must_stay_open closed_at_mismatch : PaperFillError
  sequence_not_positive key_too_long key_invalid version_not_positive fee_negative : PaperFillError

pub record FillQuantityPlan : Type 0 where
  pub policy_name : Text
  pub policy_version : Text
  pub requested_quantity : ℕ
  pub quantities : List ℕ

-- FillQuantityPlan.__post_init__
unfoldable pub fill_quantity_plan : FillQuantityPlan → Result PaperFillError FillQuantityPlan
fill_quantity_plan p = do
  raise_if (length p.policy_name == 0) policy_name_invalid
  raise_if (length p.policy_version == 0) policy_version_invalid
  raise_if (not (leb 1 (length p.quantities) && leb (length p.quantities) 2)) quantities_invalid
  raise_if (any (λ q. q == 0) p.quantities) quantity_not_positive
  raise_if (not (sum_of (λ q. q) p.quantities == p.requested_quantity)) quantities_mismatch
  ok p

-- The one or two chunks of a quantity.
unfoldable pub chunks : ℕ → List ℕ
chunks requested =
    if requested == 1 then 1 ∷ [] else let first = requested / 2 in first ∷ (requested - first) ∷ []

abbrev pub split_plan : ℕ → FillQuantityPlan
split_plan requested = record {
  policy_name = codes "INTERNAL_PAPER_SPLIT_FILL";
  policy_version = codes "v1";
  requested_quantity = requested;
  quantities = chunks requested;
}

-- InternalPaperSplitFillPolicy.plan
unfoldable pub plan : ℕ → Result PaperFillError FillQuantityPlan
unfolding fill_quantity_plan
plan requested = do
  raise_if (requested == 0) requested_not_positive
  fill_quantity_plan (split_plan requested)

-- The text of a key, before its length is tested.
unfoldable pub key_text : ℕ → ℕ → Text
unfolding decimal uuid_text
key_text order_id sequence =
    codes "order:"
    ++ uuid_text order_id
    ++ (codes "|fill-policy:internal-paper-split-fill|version:v1|sequence:" ++ decimal sequence)

unfoldable pub paper_fill_execution_key : ℕ → ℕ → Result PaperFillError Text
unfolding key_text
paper_fill_execution_key order_id sequence = do
  raise_if (sequence == 0) sequence_not_positive
  let key = key_text order_id sequence
  raise_if (ltb 160 (length key)) key_too_long
  ok key

-- NewPaperFill and StoredPaperFill, less the time at which the database recorded the row.
pub record PaperFill : Type 0 where
  pub fill_id : ℕ
  pub order_id : ℕ
  pub execution_key : Text
  pub fill_sequence : ℕ
  pub quantity : ℕ
  pub price : Decimal
  pub fee : Money
  pub executed_at : ℕ

-- The arguments of `validate_fill_history` that stay the same for every fill.
pub record Expected : Type 0 where
  pub order_id : ℕ
  pub accepted_at : ℕ
  pub plan : FillQuantityPlan
  pub reference_price : Decimal
  pub fee_currency : Text

unfoldable pub key_matches : Text → Result PaperFillError Text → Bool
key_matches key (ok expected) = codes_eq key expected
key_matches key (raise _) = false

-- The body of the loop: the tests on one fill, and the quantity so far.
unfoldable pub check_fill : Expected → ℕ → ℕ → PaperFill → Result HistoryReason ℕ
check_fill e sequence cumulative fill = do
  raise_if (not (fill.order_id == e.order_id)) order_mismatch
  raise_if (not (fill.fill_sequence == sequence)) sequence_mismatch
  raise_if (not (key_matches fill.execution_key (paper_fill_execution_key e.order_id sequence)))
      execution_key_mismatch
  planned ← or_raise (get_elem? e.plan.quantities (sequence - 1)) index_error
  raise_if (not (fill.quantity == planned)) quantity_mismatch
  raise_if (not (eqb fill.price e.reference_price)) price_mismatch
  raise_if (not (is_zero fill.fee.amount)) nonzero_fee
  raise_if (not (codes_eq fill.fee.currency e.fee_currency)) fee_currency_mismatch
  raise_if (ltb fill.executed_at e.accepted_at) execution_precedes_acceptance
  raise_if (ltb e.plan.requested_quantity (cumulative + fill.quantity)) overfill
  ok (cumulative + fill.quantity)

unfoldable pub check_fills : Expected → ℕ → ℕ → List PaperFill → Result HistoryReason ℕ
check_fills e sequence cumulative [] = ok cumulative
check_fills e sequence cumulative (fill ∷ fills) = do
  next ← check_fill e sequence cumulative fill
  check_fills e (sequence + 1) next fills

-- What the status of an order says of the number and the sum of its fills.
unfoldable pub check_status :
    PaperOrderStatus → FillQuantityPlan → List PaperFill → ℕ → Result HistoryReason (Unit {0})
check_status accepted p fills cumulative =
    raise_if (not (length fills == 0)) accepted_order_has_fills
check_status partially_filled p fills cumulative = do
  raise_if (ltb p.requested_quantity 2 || not (length fills == 1)) partial_order_history_shape
  raise_if (leb p.requested_quantity cumulative) partial_order_not_remaining
check_status _ p fills cumulative = raise order_status_not_fillable

unfoldable pub validate_fill_history :
    PaperOrderStatus → Expected → List PaperFill → Result HistoryReason ℕ
unfolding check_status
validate_fill_history status e fills = do
  raise_if (ltb (length e.plan.quantities) (length fills)) too_many_fills
  cumulative ← check_fills e 1 0 fills
  check_status status e.plan fills cumulative
  ok cumulative

abbrev pub transition_allowed : PaperOrderStatus → PaperOrderStatus → Bool
transition_allowed accepted partially_filled = true
transition_allowed accepted filled = true
transition_allowed partially_filled filled = true
transition_allowed _ _ = false

abbrev pub equals_time : Option ℕ → ℕ → Bool
equals_time none t = false
equals_time (some s) t = s == t

unfoldable pub validate_fill_transition :
    PaperOrderStatus → PaperOrderStatus → Option ℕ → ℕ → Result PaperFillError (Unit {0})
validate_fill_transition expected_status new_status closed_at updated_at = do
  raise_if (not (transition_allowed expected_status new_status)) transition_invalid
  if status_eq new_status partially_filled
      then raise_if (is_some closed_at) partial_must_stay_open
      else raise_if (not (equals_time closed_at updated_at)) closed_at_mismatch

abbrev pub fee_is_negative : Money → Bool
fee_is_negative fee = ltb_ℤ fee.amount.coefficient (pos 0)

-- NewPaperFill.__post_init__
unfoldable pub new_paper_fill : PaperFill → Result PaperFillError PaperFill
new_paper_fill fill = do
  raise_if (not (code_ok 160 fill.execution_key)) key_invalid
  raise_if (fill.fill_sequence == 0) sequence_not_positive
  raise_if (fill.quantity == 0) quantity_not_positive
  raise_if (fee_is_negative fill.fee) fee_negative
  ok fill

pub record PaperOrderFillTransition : Type 0 where
  pub order_id : ℕ
  pub expected_status : PaperOrderStatus
  pub expected_version : ℕ
  pub new_status : PaperOrderStatus
  pub closed_at : Option ℕ
  pub updated_at : ℕ

-- PaperOrderFillTransition.__post_init__
unfoldable pub new_transition :
    PaperOrderFillTransition → Result PaperFillError PaperOrderFillTransition
new_transition t = do
  raise_if (t.expected_version == 0) version_not_positive
  validate_fill_transition t.expected_status t.new_status t.closed_at t.updated_at
  ok t
