-- ===== src/PaperFills/History.antt =====
-- validate_fill_history (domain/paper_fills/history.py).
use auto_trading_v.Prelude.{
  ℕ, ◌+◌, ◌-◌, ◌≤◌, ◌<◌, ◌≡◌, refl, inl, inr, true, List, [], ◌∷◌, length, get_elem?, some, arith,
  Result, Result-cases, ap, sym, ok, raise, ◌↔◌, codes_eq→eq, codes_eq_refl,
}
use auto_trading_v.Text.{Text}
use auto_trading_v.Decimals.{eqb, is_zero}
use auto_trading_v.PaperOrders.{PaperOrderStatus, accepted, partially_filled}
use auto_trading_v.PaperFills.{
  PaperFill, Expected, check_fill, check_fills, PaperFillError, validate_fill_history,
  paper_fill_execution_key, key_matches,
}

-- The facts of a stored fill agree with the order, the plan and the market's price.
pub record IsFillOf (e : Expected) (sequence : ℕ) (fill : PaperFill) : Type 0 where
  pub order_id : fill.order_id ≡ e.order_id
  pub fill_sequence : fill.fill_sequence ≡ sequence
  pub execution_key : paper_fill_execution_key e.order_id sequence ≡ ok fill.execution_key
  pub planned : get_elem? e.plan.quantities (sequence - 1) ≡ some fill.quantity
  pub price : eqb fill.price e.reference_price ≡ true
  pub fee : is_zero fill.fee.amount ≡ true
  pub currency : fill.fee.currency ≡ e.fee_currency
  pub executed_at : e.accepted_at ≤ fill.executed_at

key_matches→eq :
    (key : Text) (r : Result PaperFillError Text) → key_matches key r ≡ true → r ≡ ok key
unfolding key_matches
key_matches→eq key (ok expected) h = ap ok (sym (codes_eq→eq key expected h))
key_matches→eq key (raise e) h = cc

eq→key_matches :
    (key : Text) (r : Result PaperFillError Text) → r ≡ ok key → key_matches key r ≡ true
unfolding key_matches
eq→key_matches key r h = rw h (codes_eq_refl key)

check_fill-IsFillOf :
    (e : Expected) (sequence cumulative : ℕ) (fill : PaperFill) {c : ℕ}
    → check_fill e sequence cumulative fill ≡ ok c
    → IsFillOf e sequence fill × (c ≡ cumulative + fill.quantity) × (c ≤ e.plan.requested_quantity)
unfolding check_fill
check_fill-IsFillOf e sequence cumulative fill h = ground (
  arith,
  key_matches→eq fill.execution_key (paper_fill_execution_key e.order_id sequence),
  codes_eq→eq fill.fee.currency e.fee_currency,
)

IsFillOf-check_fill :
    (e : Expected) (sequence cumulative : ℕ) (fill : PaperFill)
    → IsFillOf e sequence fill
    → cumulative + fill.quantity ≤ e.plan.requested_quantity
    → check_fill e sequence cumulative fill ≡ ok (cumulative + fill.quantity)
unfolding check_fill
IsFillOf-check_fill e sequence cumulative fill h le = ground (
  arith,
  eq→key_matches fill.execution_key (paper_fill_execution_key e.order_id sequence),
  codes_eq_refl e.fee_currency,
)

-- An order that may be filled next, with the history that its status asks for.
abbrev pub IsFillable : PaperOrderStatus → Expected → List PaperFill → ℕ → Type 0
IsFillable accepted e fills total = (fills ≡ []) × (total ≡ 0)
IsFillable partially_filled e fills total =
    (fill : PaperFill) × (fills ≡ fill ∷ [])
    × IsFillOf e 1 fill
    × (total ≡ fill.quantity)
    × (2 ≤ e.plan.requested_quantity)
    × (total < e.plan.requested_quantity)
IsFillable _ e fills total = ⊥

validate-IsFillable :
    (status : PaperOrderStatus) (e : Expected) (fills : List PaperFill) {total : ℕ}
    → validate_fill_history status e fills ≡ ok total
    → IsFillable status e fills total
unfolding validate_fill_history check_fills
validate-IsFillable accepted e [] h = ground arith
validate-IsFillable accepted e (fill ∷ fills) h = ground arith
validate-IsFillable partially_filled e [] h = ground arith
validate-IsFillable partially_filled e (fill ∷ []) h = elim (Result-cases (check_fill e 1 0 fill)) [
  | inl (c, checked) ↦
      let facts = check_fill-IsFillOf e 1 0 fill checked in
      (fill, refl, facts.0, ground arith, ground arith, ground arith)
  | inr (reason, failed) ↦ absurd (ground arith)
]
validate-IsFillable partially_filled e (fill ∷ g ∷ fills) h = ground arith
validate-IsFillable _ e fills h = ground arith

IsFillable-validate :
    (status : PaperOrderStatus) (e : Expected) (fills : List PaperFill) (total : ℕ)
    → 1 ≤ length e.plan.quantities
    → IsFillable status e fills total
    → validate_fill_history status e fills ≡ ok total
unfolding validate_fill_history check_fills
IsFillable-validate accepted e fills total one h = ground arith
IsFillable-validate partially_filled e fills total one (fill, same, is, sum, two, lt) =
    ground (arith, IsFillOf-check_fill e 1 0 fill is)
IsFillable-validate _ e fills total one h = absurd h

-- For a plan with at least one quantity, validate_fill_history returns a total exactly when the
-- order is accepted, has no fill and the total is 0, or it is partially filled, its one stored fill
-- agrees with the order, the key, the plan, the price, the fee and the times, the total is that
-- fill's quantity, and it is less than a requested quantity of 2 or more.
pub validate_fill_history_iff :
    (status : PaperOrderStatus) (e : Expected) (fills : List PaperFill) (total : ℕ)
    → 1 ≤ length e.plan.quantities
    → (validate_fill_history status e fills ≡ ok total) ↔ IsFillable status e fills total
validate_fill_history_iff status e fills total one =
    (validate-IsFillable status e fills, IsFillable-validate status e fills total one)
