-- ===== src/FillExecution/Lifecycle.antt =====
-- An order and its fills around a call of execute_next (application/services/paper_fill.py).
use auto_trading_v.UnitOfWork.Tables.{find-update_met}
use auto_trading_v.Prelude.{◌∙◌}
use auto_trading_v.FillExecution.Writes.{
  load_chain-intent, load_chain-order, get_order-order_id, FillCase-Meets,
}
use native.Mathlib.Nat.{add-zero}
use auto_trading_v.Prelude.{
  ℕ, ◌+◌, ◌≤◌, ◌<◌, ◌≡◌, ap, sym, ◌⊎◌, some, List, [], ◌∷◌, ◌++◌, sum_of, sum_of-append, arith, ok,
}
use auto_trading_v.PaperOrders.{PaperOrder, PaperOrderStatus, filled, partially_filled}
use auto_trading_v.PaperFills.{PaperFill}
use auto_trading_v.UnitOfWork.{Store, TradeIntent, get_order, get_intent, fills_by_order}
use auto_trading_v.UnitOfWork.Tables.{AllBefore, fills_by_order-append}
use auto_trading_v.FillExecution.{Chain, Step, execute_next}
use auto_trading_v.FillExecution.Effect.{FillCase, IsStep}
use auto_trading_v.FillExecution.Writes.{execute_next-Executed}

abbrev pub quantity_of : List PaperFill → ℕ
quantity_of fills = sum_of (λ f. f.quantity) fills

-- How far a fill brings its order.
abbrev pub Reaches : ℕ → ℕ → PaperOrderStatus → Type 0
Reaches requested total status =
    (total ≡ requested) × (status ≡ filled) ⊎ (total < requested) × (status ≡ partially_filled)

pub record Progress (c : Chain) (fills : List PaperFill) (now : ℕ) (step : Step) : Type 0 where
  pub order_id : step.fill.order_id ≡ c.order.order_id
  pub last : AllBefore step.fill.fill_sequence fills
  pub positive : 1 ≤ step.fill.quantity
  pub reaches :
      Reaches c.intent.requested_quantity
        (quantity_of fills + step.fill.quantity)
        step.transition.new_status

IsStep-Reaches :
    (c : Chain) (number total quantity now fill_id : ℕ) {step : Step}
    → IsStep c number total quantity now fill_id step
    → total + quantity ≤ c.intent.requested_quantity
    → Reaches c.intent.requested_quantity (total + quantity) step.transition.new_status
IsStep-Reaches c number total quantity now fill_id made le = rw made.transition (ground arith)

pub FillCase-Progress :
    {fills : List PaperFill} {fill_id now : ℕ} {step : Step} (c : Chain)
    → 1 ≤ c.intent.requested_quantity
    → FillCase c fills fill_id now step
    → Progress c fills now step
FillCase-Progress c one (FillCase.first is none_yet made) = record {
  order_id = made.order;
  last = rw none_yet tt;
  positive = ground arith;
  reaches = rw (none_yet, made.quantity_planned) (IsStep-Reaches c 0 0 _ _ _ made (ground arith));
}
FillCase-Progress c one (FillCase.second f is alone two half place made) = record {
  order_id = made.order;
  last = rw (alone, made.sequence, place) (omega arith, tt);
  positive = ground arith;
  reaches =
      rw (alone, made.quantity_planned, add-zero)
        (IsStep-Reaches c 1 f.quantity _ _ _ made (omega arith));
}

-- The fills of an order, in sequence.
abbrev pub fills_of : Store → ℕ → List PaperFill
fills_of s order_id = fills_by_order s.paper_fills order_id

-- What a fill does to its order.
pub record Filled (order_id : ℕ) (s : Store) (fill : PaperFill) (order : PaperOrder) (s' : Store)
    : Type 0 where
  pub old : PaperOrder
  pub intent : TradeIntent
  pub old_found : get_order s order_id ≡ some old
  pub intent_found : get_intent s old.trade_intent_id ≡ some intent
  pub found : get_order s' order_id ≡ some order
  pub same_intent : order.trade_intent_id ≡ old.trade_intent_id
  pub appended : fills_of s' order_id ≡ fills_of s order_id ++ fill ∷ []
  pub positive : 1 ≤ fill.quantity
  pub version : order.version ≡ old.version + 1
  pub reaches : Reaches intent.requested_quantity (quantity_of (fills_of s' order_id)) order.status

-- When execute_next returns a fill and an order, the order is the one stored under the identifier
-- afterwards, its version is one more and its intent the same, the fill has a positive quantity and
-- stands after the order's earlier fills, and all of them sum to the requested quantity with the
-- order filled or to less with the order partially filled.
pub execute_next-Filled :
    (now fill_id order_id : ℕ) (s : Store) {fill : PaperFill} {order : PaperOrder} {s' : Store}
    → execute_next now fill_id order_id s ≡ (ok (fill, order), s')
    → Filled order_id s fill order s'
execute_next-Filled now fill_id order_id s {fill} {order} {s'} h =
    let x = execute_next-Executed now fill_id order_id s h in
    let intent = load_chain-intent s order_id x.loaded in
    let progress = FillCase-Progress x.chain intent.1 x.case in
    let found = load_chain-order s order_id x.loaded in
    let meets = FillCase-Meets x.chain x.case in
    let same : fill ≡ x.step.fill = x.fill_made in
    let appended : fills_of s' order_id ≡ fills_of s order_id ++ fill ∷ [] =
      rw (x.store_written, same)
        (fills_by_order-append s.paper_fills order_id x.step.fill
          (progress.order_id ∙ get_order-order_id s order_id found) progress.last) in
    record {
      old = x.chain.order;
      intent = x.chain.intent;
      old_found = found;
      intent_found = intent.0;
      found =
          rw (x.store_written, x.order_moved)
            (find-update_met x.step.transition order_id s.paper_orders x.chain.order found meets);
      same_intent = ap (λ o. o.trade_intent_id) x.order_moved;
      appended = appended;
      positive = rw same progress.positive;
      version = ap (λ o. o.version) x.order_moved ∙ ap (λ (n : ℕ). n + 1) (sym meets.2);
      reaches = rw (appended, x.order_moved, sum_of-append, add-zero, same) progress.reaches;
    }
