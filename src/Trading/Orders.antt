-- ===== src/Trading/Orders.antt =====
-- Orders, fills and positions over the calls of all services.
use auto_trading_v.TradeIntents.Calls.{create_all-appended, create_all_atomic}
use native.Mathlib.Decide.{ℕ_discrete}
use auto_trading_v.Prelude.{
  find_first-append_found, ℕ, suc, ◌≡◌, ◌≢◌, ◌≤◌, refl, sym, ◌∙◌, inl, inr, true, false, some, none,
  List, [], ◌∷◌, ◌++◌, find_first, any, arith, ok, raise, ◌==◌, if◌then◌else◌, sum_of-append,
}
use auto_trading_v.Prelude.{Bool}
use auto_trading_v.PaperOrders.{PaperOrder, PaperOrderStatus, accepted, rejected}
use auto_trading_v.PaperFills.{PaperFill}
use auto_trading_v.UnitOfWork.{TradeIntent, Store}
use auto_trading_v.FillExecution.{execute_next}
use auto_trading_v.FillExecution.Lifecycle.{fills_of, quantity_of, execute_next-Filled, Reaches}
use auto_trading_v.FillExecution.Isolation.{execute_next_atomic, execute_next-Untouched}
use auto_trading_v.Submission.{PaperBroker, is_accepted}
use auto_trading_v.Submission.Once.{Submitted, submit-Submitted, submit_atomic, Submitted-found}
use auto_trading_v.Projector.Frame.{SameOrders, project_fill-SameOrders}
use auto_trading_v.Projector.Balance.{Balanced, project_fill-Balanced}
use auto_trading_v.Trading.{
  planning, Standing, AllSettled, Call, submission, execution, projection, Run, begin, step,
}

absent :
    (k : ℕ) (orders : List PaperOrder)
    → any (λ r. r.order_id == k) orders ≡ false
    → find_first (λ r. r.order_id == k) orders ≡ none
absent k [] h = refl
absent k (o ∷ orders) h = ground (arith, absent k orders)

-- Looking a row up after another was appended.
pub find-appended_other :
    (k : ℕ) (orders : List PaperOrder) (o : PaperOrder)
    → k ≢ o.order_id
    → find_first (λ r. r.order_id == k) (orders ++ o ∷ [])
      ≡ find_first (λ r. r.order_id == k) orders
find-appended_other k [] o ne = ground arith
find-appended_other k (q ∷ orders) o ne = ground (arith, find-appended_other k orders o ne)

pub find-appended_new :
    (orders : List PaperOrder) (o : PaperOrder)
    → any (λ r. r.order_id == o.order_id) orders ≡ false
    → find_first (λ r. r.order_id == o.order_id) (orders ++ o ∷ []) ≡ some o
find-appended_new [] o h = ground arith
find-appended_new (q ∷ orders) o h = ground (arith, find-appended_new orders o)

Submitted-Standing :
    {now order_id trade_intent_id : ℕ} {s s' : Store} {order : PaperOrder} (requested : ℕ)
    → Submitted now order_id trade_intent_id s order s'
    → Standing requested order.status []
Submitted-Standing requested x = rw x.order_made (by_outcome (is_accepted x.result.outcome))
  where
    by_outcome : (b : Bool) → Standing requested (if b then accepted else rejected) []
    by_outcome true = refl
    by_outcome false = refl

Submitted-AllSettled :
    {now order_id trade_intent_id : ℕ} {s s' : Store} {order : PaperOrder}
    → AllSettled s
    → Submitted now order_id trade_intent_id s order s'
    → AllSettled s'
Submitted-AllSettled {trade_intent_id = i} {s = s} {order = order} a x =
    rw x.store_written (record {
      orders = λ k o found. elim (ℕ_discrete k order.order_id) [
        | yes same ↦
            let is : some order ≡ some o =
              sym (find-appended_new s.paper_orders order x.fresh.order_id) ∙ rw same at found in
            let e : order ≡ o = cc in
            let none_yet : fills_of s k ≡ [] =
              a.no_others k (rw same (absent order.order_id s.paper_orders x.fresh.order_id)) in
            (
              x.intent,
              rw (← e, (Submitted-found x).0) x.intent_found,
              rw (none_yet, ← e) (Submitted-Standing x.intent.requested_quantity x),
            )
        | no other ↦ a.orders k o (sym (find-appended_other k s.paper_orders order other) ∙ found)
      ];
      no_others = λ k gone. elim (ℕ_discrete k order.order_id) [
        | yes same ↦ absurd (
            let there = find-appended_new s.paper_orders order x.fresh.order_id in
            let gone' = rw same at gone in cc)
        | no other ↦ a.no_others k (sym (find-appended_other k s.paper_orders order other) ∙ gone)
      ];
    })

Reaches-Standing :
    (requested : ℕ) (status : PaperOrderStatus) (fills : List PaperFill)
    → 1 ≤ quantity_of fills
    → Reaches requested (quantity_of fills) status
    → Standing requested status fills
Reaches-Standing requested status fills one (inl (all, is)) = rw is all
Reaches-Standing requested status fills one (inr (part, is)) = rw is (one, part)

appended-positive :
    (fills : List PaperFill) (f : PaperFill) → 1 ≤ f.quantity → 1 ≤ quantity_of (fills ++ f ∷ [])
appended-positive fills f h = rw (sum_of-append (λ g. g.quantity) fills (f ∷ [])) (omega arith)

executed-AllSettled :
    (now fill_id order_id : ℕ) (s : Store) {fill : PaperFill} {order : PaperOrder} {s' : Store}
    → AllSettled s
    → execute_next now fill_id order_id s ≡ (ok (fill, order), s')
    → AllSettled s'
executed-AllSettled now fill_id order_id s {fill} {order} {s'} a h =
    let f = execute_next-Filled now fill_id order_id s h in
    record {
      orders = λ k o found. elim (ℕ_discrete k order_id) [
        | yes same ↦
            let is : some order ≡ some o = sym f.found ∙ rw same at found in
            let e : order ≡ o = cc in
            let intents =
              (execute_next-Untouched now fill_id order_id (suc order_id) s (omega arith)
                h).intents in
            (
              f.intent,
              rw (← e, f.same_intent, intents) f.intent_found,
              rw (← e, same)
                  (Reaches-Standing f.intent.requested_quantity order.status (fills_of s' order_id)
                    (rw f.appended (appended-positive (fills_of s order_id) fill f.positive))
                    f.reaches),
            )
        | no other ↦
            let u = execute_next-Untouched now fill_id order_id k s other h in
            let (intent, there, standing) = a.orders k o (sym u.order ∙ found) in
            (intent, rw u.intents there, rw u.fills standing)
      ];
      no_others = λ k gone. elim (ℕ_discrete k order_id) [
        | yes same ↦ absurd (let there = f.found in let gone' = rw same at gone in cc)
        | no other ↦
            let u = execute_next-Untouched now fill_id order_id k s other h in
            u.fills ∙ a.no_others k (sym u.order ∙ gone)
      ];
    }

projected-AllSettled : {s s' : Store} → SameOrders s s' → AllSettled s → AllSettled s'
projected-AllSettled {s} {s'} same a = record {
  orders = λ k o found.
      let (intent, there, standing) = a.orders k o (rw same.orders at found) in
      (intent, rw same.intents there, rw same.fills standing);
  no_others = λ k gone. rw same.fills (a.no_others k (rw same.orders at gone));
}

planned-AllSettled :
    (s t : Store) (rows : List TradeIntent)
    → t ≡ record s { trade_intents = s.trade_intents ++ rows }
    → AllSettled s
    → AllSettled t
planned-AllSettled s t rows kept a = rw kept (record {
  orders = λ k o found.
      let (intent, there, standing) = a.orders k o found in
      (
        intent,
        find_first-append_found (λ r. r.trade_intent_id == o.trade_intent_id) s.trade_intents rows
            there,
        standing,
      );
  no_others = λ k gone. a.no_others k gone;
})

module _ (broker : PaperBroker) (client_order_id_for : ℕ → ℕ) where
  Call-AllSettled :
      {s s' : Store} → Call broker client_order_id_for s s' → AllSettled s → AllSettled s'
  Call-AllSettled {s} (planning policy new_id strategies now candidate_id (ok rows) h) a =
      planned-AllSettled s _ rows
        (create_all-appended policy strategies new_id now candidate_id s h) a
  Call-AllSettled {s} (planning policy new_id strategies now candidate_id (raise e) h) a =
      rw (create_all_atomic policy strategies new_id now candidate_id s h) a
  Call-AllSettled {s} (submission now order_id trade_intent_id (ok order) h) a =
      Submitted-AllSettled a
        (submit-Submitted broker client_order_id_for now order_id trade_intent_id s h)
  Call-AllSettled {s} (submission now order_id trade_intent_id (raise e) h) a =
      rw (submit_atomic broker client_order_id_for now order_id trade_intent_id s h) a
  Call-AllSettled {s} (execution now fill_id order_id (ok (fill, order)) h) a =
      executed-AllSettled now fill_id order_id s a h
  Call-AllSettled {s} (execution now fill_id order_id (raise e) h) a =
      rw (execute_next_atomic now fill_id order_id s h) a
  Call-AllSettled {s} (projection position_id event_id fill_id later r h) a =
      projected-AllSettled (project_fill-SameOrders position_id event_id fill_id later s h) a

  -- Whatever calls of create_all, submit, execute_next and project_fill are made one after another,
  -- with any broker and whether they return or raise, if at first every stored order has a stored
  -- intent and the fills of its status and no fill lacks an order, then this holds at the end: an
  -- accepted or rejected order has no fill, a partially filled one has a positive sum of fills
  -- below the requested quantity, a filled one exactly the requested quantity, and no order has
  -- another status.
  pub Run-AllSettled :
      (s s' : Store) → Run broker client_order_id_for s s' → AllSettled s → AllSettled s'
  Run-AllSettled s _ begin a = a
  Run-AllSettled s s' (step {t = t} before call) a =
      Call-AllSettled call (Run-AllSettled s t before a)

  Call-Balanced : {s s' : Store} → Call broker client_order_id_for s s' → Balanced s → Balanced s'
  Call-Balanced {s} (planning policy new_id strategies now candidate_id (ok rows) h) a =
      rw (create_all-appended policy strategies new_id now candidate_id s h) a
  Call-Balanced {s} (planning policy new_id strategies now candidate_id (raise e) h) a =
      rw (create_all_atomic policy strategies new_id now candidate_id s h) a
  Call-Balanced {s} (submission now order_id trade_intent_id (ok order) h) a =
      rw
        (submit-Submitted broker client_order_id_for now order_id trade_intent_id s h).store_written
        a
  Call-Balanced {s} (submission now order_id trade_intent_id (raise e) h) a =
      rw (submit_atomic broker client_order_id_for now order_id trade_intent_id s h) a
  Call-Balanced {s} (execution now fill_id order_id (ok (fill, order)) h) a =
      let u = execute_next-Untouched now fill_id order_id (suc order_id) s (omega arith) h in
      rw (u.positions, u.events) a
  Call-Balanced {s} (execution now fill_id order_id (raise e) h) a =
      rw (execute_next_atomic now fill_id order_id s h) a
  Call-Balanced {s} (projection position_id event_id fill_id later r h) a =
      project_fill-Balanced position_id event_id fill_id later s a h

  -- Whatever calls of create_all, submit, execute_next and project_fill are made one after another,
  -- with any broker and whether they return or raise, if at first every stored position has the sum
  -- of its events' quantities as its quantity and the number of its events as its version,
  -- positions have distinct identifiers and every event names a stored position, then the same
  -- holds at the end.
  pub Run-Balanced : (s s' : Store) → Run broker client_order_id_for s s' → Balanced s → Balanced s'
  Run-Balanced s _ begin a = a
  Run-Balanced s s' (step {t = t} before call) a = Call-Balanced call (Run-Balanced s t before a)
