-- ===== src/Trading/Intents.antt =====
-- The intents' orders over the calls of all services.
use auto_trading_v.TradeIntents.Calls.{create_all-appended, create_all_atomic}
use native.Mathlib.Decide.{ℕ_discrete}
use auto_trading_v.Prelude.{
  ℕ, ◌≡◌, ◌≢◌, ◌⊎◌, refl, ap, sym, ◌∙◌, inl, inr, true, some, List, [], ◌∷◌, find_first, any, arith,
  ok, raise, ◌==◌, Bool, Bool-cases,
}
use auto_trading_v.PaperOrders.{PaperOrder}
use auto_trading_v.PaperFills.{PaperFill}
use auto_trading_v.UnitOfWork.{Store, get_order}
use auto_trading_v.FillExecution.{execute_next}
use auto_trading_v.FillExecution.Lifecycle.{execute_next-Filled}
use auto_trading_v.FillExecution.Isolation.{execute_next_atomic, execute_next-Untouched}
use auto_trading_v.Projector.Frame.{project_fill-SameOrders}
use auto_trading_v.Submission.{PaperBroker}
use auto_trading_v.Submission.Once.{Submitted, submit-Submitted, submit_atomic}
use auto_trading_v.Trading.{
  planning, Call, submission, execution, projection, Run, begin, step, OnePerIntent,
}
use auto_trading_v.Trading.Orders.{find-appended_other, find-appended_new}

finds-intent :
    (f : PaperOrder → Bool) (orders : List PaperOrder) {o : PaperOrder}
    → find_first f orders ≡ some o
    → any (λ r. r.trade_intent_id == o.trade_intent_id) orders ≡ true
finds-intent f [] h = cc
finds-intent f (q ∷ orders) {o} h = elim (Bool-cases (f q)) [
  | inl here ↦
      let same : some q ≡ some o = rw here at h in let e : q ≡ o = cc in rw e (ground arith)
  | inr later ↦ ground (arith, finds-intent f orders (rw later at h))
]

-- The new order's intent is in no row.
new-intent :
    {now order_id trade_intent_id : ℕ} {s s' : Store} {order : PaperOrder} (k : ℕ) (o : PaperOrder)
    → Submitted now order_id trade_intent_id s order s'
    → get_order s k ≡ some o
    → o.trade_intent_id ≢ order.trade_intent_id
new-intent {s = s} k o x found same =
    let there = finds-intent (λ r. r.order_id == k) s.paper_orders found in
    let fresh = rw (← same) at x.fresh.trade_intent_id in cc

-- A row of the table after a submission.
looked-up :
    {now order_id trade_intent_id : ℕ} {s s' : Store} {order : PaperOrder} (k : ℕ) (o : PaperOrder)
    → Submitted now order_id trade_intent_id s order s'
    → get_order s' k ≡ some o
    → (k ≡ order.order_id) × (o ≡ order) ⊎ (get_order s k ≡ some o)
looked-up {s = s} {order = order} k o x found = elim (ℕ_discrete k order.order_id) [
  | yes same ↦
      let found' = rw x.store_written at found in
      let is : some order ≡ some o =
        sym (find-appended_new s.paper_orders order x.fresh.order_id) ∙ rw same at found' in
      inl (same, cc)
  | no other ↦
      inr (sym (find-appended_other k s.paper_orders order other) ∙ rw x.store_written at found)
]

Submitted-OnePerIntent :
    {now order_id trade_intent_id : ℕ} {s s' : Store} {order : PaperOrder}
    → OnePerIntent s
    → Submitted now order_id trade_intent_id s order s'
    → OnePerIntent s'
Submitted-OnePerIntent a x k k' o o' found found' same = elim (looked-up k o x found) [
  | inl (at_k, is) ↦ elim (looked-up k' o' x found') [
    | inl (at_k', is') ↦ at_k ∙ sym at_k'
    | inr old' ↦ absurd (new-intent k' o' x old' (sym same ∙ ap (λ r. r.trade_intent_id) is))
  ]
  | inr old ↦ elim (looked-up k' o' x found') [
    | inl (at_k', is') ↦ absurd (new-intent k o x old (same ∙ ap (λ r. r.trade_intent_id) is'))
    | inr old' ↦ a k k' o o' old old' same
  ]
]

-- Before a fill the order was there, of the same intent.
executed-old :
    (now fill_id order_id : ℕ) (s : Store) {fill : PaperFill} {order : PaperOrder} {s' : Store}
    (k : ℕ) (o : PaperOrder)
    → execute_next now fill_id order_id s ≡ (ok (fill, order), s')
    → get_order s' k ≡ some o
    → (old : PaperOrder) × (get_order s k ≡ some old) × (old.trade_intent_id ≡ o.trade_intent_id)
executed-old now fill_id order_id s {order = order} k o h found = elim (ℕ_discrete k order_id) [
  | yes same ↦
      let f = execute_next-Filled now fill_id order_id s h in
      let is : some order ≡ some o = sym f.found ∙ rw same at found in
      let e : order ≡ o = cc in
      (f.old, rw same f.old_found, sym f.same_intent ∙ ap (λ r. r.trade_intent_id) e)
  | no other ↦
      let u = execute_next-Untouched now fill_id order_id k s other h in
      (o, sym u.order ∙ found, refl)
]

executed-OnePerIntent :
    (now fill_id order_id : ℕ) (s : Store) {fill : PaperFill} {order : PaperOrder} {s' : Store}
    → OnePerIntent s
    → execute_next now fill_id order_id s ≡ (ok (fill, order), s')
    → OnePerIntent s'
executed-OnePerIntent now fill_id order_id s a h k k' o o' found found' same =
    let (p, before, intent) = executed-old now fill_id order_id s k o h found in
    let (p', before', intent') = executed-old now fill_id order_id s k' o' h found' in
    a k k' p p' before before' (intent ∙ same ∙ sym intent')

module _ (broker : PaperBroker) (client_order_id_for : ℕ → ℕ) where
  Call-OnePerIntent :
      {s s' : Store} → Call broker client_order_id_for s s' → OnePerIntent s → OnePerIntent s'
  Call-OnePerIntent {s} (planning policy new_id strategies now candidate_id (ok rows) h) a =
      rw (create_all-appended policy strategies new_id now candidate_id s h) a
  Call-OnePerIntent {s} (planning policy new_id strategies now candidate_id (raise e) h) a =
      rw (create_all_atomic policy strategies new_id now candidate_id s h) a
  Call-OnePerIntent {s} (submission now order_id trade_intent_id (ok order) h) a =
      Submitted-OnePerIntent a
        (submit-Submitted broker client_order_id_for now order_id trade_intent_id s h)
  Call-OnePerIntent {s} (submission now order_id trade_intent_id (raise e) h) a =
      rw (submit_atomic broker client_order_id_for now order_id trade_intent_id s h) a
  Call-OnePerIntent {s} (execution now fill_id order_id (ok (fill, order)) h) a =
      executed-OnePerIntent now fill_id order_id s a h
  Call-OnePerIntent {s} (execution now fill_id order_id (raise e) h) a =
      rw (execute_next_atomic now fill_id order_id s h) a
  Call-OnePerIntent {s} (projection position_id event_id fill_id later r h) a =
      rw (project_fill-SameOrders position_id event_id fill_id later s h).orders a

  -- Whatever calls of create_all, submit, execute_next and project_fill are made one after another,
  -- with any broker and whether they return or raise, if at first no two orders have one intent,
  -- then no two orders have one intent at the end.
  pub Run-OnePerIntent :
      (s s' : Store) → Run broker client_order_id_for s s' → OnePerIntent s → OnePerIntent s'
  Run-OnePerIntent s _ begin a = a
  Run-OnePerIntent s s' (step {t = t} before call) a =
      Call-OnePerIntent call (Run-OnePerIntent s t before a)
