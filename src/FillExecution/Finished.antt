-- ===== src/FillExecution/Finished.antt =====
-- Calls of execute_next (application/services/paper_fill.py) for an order after its last fill.
use auto_trading_v.Prelude.{
  ℕ, ◌≡◌, ap, sym, ◌∙◌, inl, inr, some, [], ◌∷◌, ◌++◌, arith, ok, raise, codes_eq_refl, codes_eq→eq,
}
use auto_trading_v.PaperOrders.{PaperOrder, filled, internal_paper_broker_code}
use auto_trading_v.PaperFills.{PaperFill}
use auto_trading_v.UnitOfWork.{Store, TradeIntent, get_order, get_intent}
use auto_trading_v.FillExecution.{Chain, not_fillable, load_chain, execute_next}
use auto_trading_v.FillExecution.Writes.{execute_next-Executed}
use auto_trading_v.FillExecution.Lifecycle.{fills_of, quantity_of, execute_next-Filled}

-- of a filled order in any tables
not_fillable_again :
    (now fill_id order_id : ℕ) (s : Store) (o : PaperOrder)
    → get_order s order_id ≡ some o
    → o.broker_code ≡ internal_paper_broker_code
    → o.status ≡ filled
    → execute_next now fill_id order_id s ≡ (raise (not_fillable filled), s)
unfolding execute_next load_chain
not_fillable_again now fill_id order_id s o found broker status =
    ground (arith, codes_eq_refl internal_paper_broker_code)

load_chain-broker :
    (s : Store) (order_id : ℕ) {c : Chain}
    → load_chain s order_id ≡ ok c
    → c.order.broker_code ≡ internal_paper_broker_code
unfolding load_chain
load_chain-broker s order_id {c} h =
    codes_eq→eq c.order.broker_code internal_paper_broker_code (ground arith)

-- When a call of execute_next has returned a fill and an order, and the order's earlier fills with
-- this one sum to the quantity that the order's intent requests, then in any tables that hold the
-- order as that call returned it, a further call for it, at whatever time and with whatever
-- identifier, raises the error that a filled order is not fillable and leaves the tables as they
-- are.
pub execute_next_finished :
    (now fill_id order_id : ℕ) (s : Store) {fill : PaperFill} {order : PaperOrder} {s' : Store}
    (intent : TradeIntent) (later other_id : ℕ) (t : Store)
    → execute_next now fill_id order_id s ≡ (ok (fill, order), s')
    → get_intent s order.trade_intent_id ≡ some intent
    → quantity_of (fills_of s order_id ++ fill ∷ []) ≡ intent.requested_quantity
    → get_order t order_id ≡ some order
    → execute_next later other_id order_id t ≡ (raise (not_fillable filled), t)
execute_next_finished now fill_id order_id s {fill} {order} {s'} intent later other_id t h known
      total stored =
    let x = execute_next-Executed now fill_id order_id s h in
    let f = execute_next-Filled now fill_id order_id s h in
    let again : get_intent s order.trade_intent_id ≡ some f.intent =
      rw f.same_intent f.intent_found in
    let same : some f.intent ≡ some intent = sym again ∙ known in
    let whole : quantity_of (fills_of s' order_id) ≡ f.intent.requested_quantity =
      ap quantity_of f.appended ∙ total ∙ sym (cc same) in
    let broker : order.broker_code ≡ internal_paper_broker_code =
      ap (λ o. o.broker_code) x.order_moved ∙ load_chain-broker s order_id x.loaded in
    elim f.reaches [
      | inl (_, status) ↦ not_fillable_again later other_id order_id t order stored broker status
      | inr (less, _) ↦ absurd (omega (arith, less, whole))
    ]
