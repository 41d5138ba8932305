-- ===== src/Submission/Once.antt =====
-- Calls of submit (application/services/paper_order.py): what one writes, and a further call.
use auto_trading_v.Prelude.{
  ℕ, ◌≡◌, ◌≤◌, refl, ap, sym, ◌∙◌, inl, inr, false, Option, some, none, List, [], ◌∷◌, ◌++◌,
  find_first-meets, find_first-append_last, any, arith, ok, raise, >>=-eq-ok, ok-injective,
  or_raise, or_raise-eq-ok, raise_if, map_error, map_error-eq-ok, ◌==◌, ==_iff, ==_refl, is_some,
}
use auto_trading_v.PaperOrders.{PaperOrder, new_paper_order}
use auto_trading_v.PaperOrders.Shape.{new_paper_order-keeps}
use auto_trading_v.UnitOfWork.{Store, Ending, committed, TradeIntent, get_intent, with_unit_of_work}
use auto_trading_v.UnitOfWork.Transaction.{
  committed-injective, with_unit_of_work-ok, with_unit_of_work-raise,
}
use auto_trading_v.Submission.{
  PaperBroker, PaperOrderSubmissionRequest, PaperOrderSubmissionResult, SubmissionError, conflict,
  trade_intent_exists, client_order_id_exists, broker_reference_exists, trade_intent_not_found,
  contract_invalid, order_invalid, failure_error, new_request, validate_result, request_of,
  order_of, order_by_intent, order_by_client, reference_taken, add_order, submit_body, submit,
}

-- No row has one of the new order's unique values.
pub record IsNew (orders : List PaperOrder) (o : PaperOrder) : Type 0 where
  pub order_id : any (λ r. r.order_id == o.order_id) orders ≡ false
  pub trade_intent_id : any (λ r. r.trade_intent_id == o.trade_intent_id) orders ≡ false
  pub client_order_id : any (λ r. r.client_order_id == o.client_order_id) orders ≡ false
  pub broker_reference : reference_taken o.broker_code o.broker_order_ref orders ≡ false

-- What a submission has done.
pub record Submitted (now order_id trade_intent_id : ℕ) (s : Store) (order : PaperOrder)
    (s' : Store) : Type 0 where
  pub intent : TradeIntent
  pub intent_found : get_intent s trade_intent_id ≡ some intent
  pub fresh : IsNew s.paper_orders order
  pub result : PaperOrderSubmissionResult
  pub client_order_id : ℕ
  pub order_made : order ≡ order_of order_id (request_of intent client_order_id now) result
  pub in_time : now ≤ result.processed_at
  pub store_written : s' ≡ record s { paper_orders = s.paper_orders ++ order ∷ [] }

new_request-eq-ok :
    (r : PaperOrderSubmissionRequest) {q : PaperOrderSubmissionRequest}
    → new_request r ≡ ok q
    → q ≡ r
unfolding new_request
new_request-eq-ok r h = ground arith

validate_result-eq-ok :
    (code : List ℕ) (request : PaperOrderSubmissionRequest) (a : Option PaperOrderSubmissionResult)
    {r : PaperOrderSubmissionResult}
    → validate_result code request a ≡ ok r
    → request.submitted_at ≤ r.processed_at
unfolding validate_result
validate_result-eq-ok code request none h = cc
validate_result-eq-ok code request (some x) h = ground arith

add_order-eq-ok :
    (orders : List PaperOrder) (o : PaperOrder) {after : List PaperOrder}
    → add_order orders o ≡ ok after
    → (after ≡ orders ++ o ∷ []) × IsNew orders o
unfolding add_order
add_order-eq-ok orders o h = (
  ground arith,
  record {
    order_id = ground arith;
    trade_intent_id = ground arith;
    client_order_id = ground arith;
    broker_reference = ground arith;
  },
)

module _ (broker : PaperBroker) (client_order_id_for : ℕ → ℕ) where
  body-Submitted :
      (now order_id trade_intent_id : ℕ) (s : Store) {e : Ending PaperOrder}
      → submit_body broker client_order_id_for now order_id trade_intent_id s ≡ ok e
      → (order : PaperOrder) × (s' : Store) × (e ≡ committed order s')
        × Submitted now order_id trade_intent_id s order s'
  unfolding submit_body
  body-Submitted now order_id trade_intent_id s h =
      let (intent, found, h1) =
        >>=-eq-ok (or_raise (get_intent s trade_intent_id) trade_intent_not_found) _ h in
      let client_order_id = client_order_id_for trade_intent_id in
      let request = request_of intent client_order_id now in
      let (_, _, h2) =
        >>=-eq-ok
          (raise_if (is_some (order_by_intent trade_intent_id s.paper_orders))
            (conflict trade_intent_exists))
          _ h1 in
      let (_, _, h3) =
        >>=-eq-ok
          (raise_if (is_some (order_by_client client_order_id s.paper_orders))
            (conflict client_order_id_exists))
          _ h2 in
      let (q, valid, h4) = >>=-eq-ok (map_error contract_invalid (new_request request)) _ h3 in
      let (answer, _, h5) = >>=-eq-ok (map_error failure_error (broker.submit q)) _ h4 in
      let (r, checked, h6) = >>=-eq-ok (validate_result broker.broker_code q answer) _ h5 in
      let (_, _, h7) =
        >>=-eq-ok
          (raise_if (reference_taken r.broker_code r.broker_order_ref s.paper_orders)
            (conflict broker_reference_exists))
          _ h6 in
      let (order, made, h8) =
        >>=-eq-ok (map_error order_invalid (new_paper_order (order_of order_id q r))) _ h7 in
      let (orders, added, h9) =
        >>=-eq-ok (map_error conflict (add_order s.paper_orders order)) _ h8 in
      let same : q ≡ request =
        new_request-eq-ok request (map_error-eq-ok contract_invalid (new_request request) valid) in
      let kept =
        new_paper_order-keeps (order_of order_id q r) order
          (map_error-eq-ok order_invalid _ made) in
      let (eq, fresh) = add_order-eq-ok s.paper_orders order (map_error-eq-ok conflict _ added) in
      (
        order,
        record s { paper_orders = orders },
        sym (ok-injective h9),
        record {
          intent = intent;
          intent_found = or_raise-eq-ok _ _ found;
          fresh = fresh;
          result = r;
          client_order_id = client_order_id;
          order_made = kept ∙ ap (λ x. order_of order_id x r) same;
          in_time = rw same at (validate_result-eq-ok broker.broker_code q answer checked);
          store_written = ap (λ o. record s { paper_orders = o }) eq;
        },
      )

  pub submit-Submitted :
      (now order_id trade_intent_id : ℕ) (s : Store) {order : PaperOrder} {s' : Store}
      → submit broker client_order_id_for now order_id trade_intent_id s ≡ (ok order, s')
      → Submitted now order_id trade_intent_id s order s'
  unfolding submit
  submit-Submitted now order_id trade_intent_id s h =
      elim (with_unit_of_work-ok s
        (submit_body broker client_order_id_for now order_id trade_intent_id) h) [
          | inl wrote ↦
              let (order, s', same, facts) = body-Submitted now order_id trade_intent_id s wrote in
              by_ending (committed-injective same) facts
          | inr kept ↦
              let (order, s', same, facts) = body-Submitted now order_id trade_intent_id s kept.0 in
              absurd (cc same)
        ]
    where
      by_ending :
          {o p : PaperOrder} {t u : Store}
          → (o ≡ p) × (t ≡ u)
          → Submitted now order_id trade_intent_id s p u
          → Submitted now order_id trade_intent_id s o t
      by_ending (e, e') x = rw (e, e') x

  body-exists :
      (now order_id trade_intent_id : ℕ) (s : Store) {intent : TradeIntent} {o : PaperOrder}
      → get_intent s trade_intent_id ≡ some intent
      → order_by_intent trade_intent_id s.paper_orders ≡ some o
      → submit_body broker client_order_id_for now order_id trade_intent_id s
        ≡ raise (conflict trade_intent_exists)
  unfolding submit_body
  body-exists now order_id trade_intent_id s found there = rw (found, there) refl

  submit-exists :
      (now order_id trade_intent_id : ℕ) (s : Store) {intent : TradeIntent} {o : PaperOrder}
      → get_intent s trade_intent_id ≡ some intent
      → order_by_intent trade_intent_id s.paper_orders ≡ some o
      → submit broker client_order_id_for now order_id trade_intent_id s
        ≡ (raise (conflict trade_intent_exists), s)
  unfolding submit
  submit-exists now order_id trade_intent_id s found there =
      rw (body-exists now order_id trade_intent_id s found there, with_unit_of_work)

  pub submit_atomic :
      (now order_id trade_intent_id : ℕ) (s : Store) {e : SubmissionError} {s' : Store}
      → submit broker client_order_id_for now order_id trade_intent_id s ≡ (raise e, s')
      → s' ≡ s
  unfolding submit
  submit_atomic now order_id trade_intent_id s h =
      (with_unit_of_work-raise s
        (submit_body broker client_order_id_for now order_id trade_intent_id) h).1

any-none :
    (k : ℕ) (orders : List PaperOrder)
    → any (λ r. r.trade_intent_id == k) orders ≡ false
    → order_by_intent k orders ≡ none
any-none k [] h = refl
any-none k (o ∷ orders) h = ground (arith, any-none k orders)

-- The order of a submission is the one stored for its intent.
pub Submitted-found :
    {now order_id trade_intent_id : ℕ} {s s' : Store} {order : PaperOrder}
    → Submitted now order_id trade_intent_id s order s'
    → (order.trade_intent_id ≡ trade_intent_id)
      × (order_by_intent trade_intent_id s'.paper_orders ≡ some order)
Submitted-found {trade_intent_id = k} {s = s} {order = order} x =
    let named : order.trade_intent_id ≡ k =
      ap (λ o. o.trade_intent_id) x.order_made
      ∙ (==_iff x.intent.trade_intent_id k).0
          (find_first-meets (λ r. r.trade_intent_id == k) s.trade_intents x.intent_found) in
    (
      named,
      rw x.store_written (
          find_first-append_last (λ o. o.trade_intent_id == k) s.paper_orders order
            (any-none k s.paper_orders (rw named at x.fresh.trade_intent_id))
            (rw named (==_refl k))),
    )

module _ (broker other_broker : PaperBroker) (client_order_id_for : ℕ → ℕ) where
  -- When submit has returned an order, that order is the one stored for the intent, and a further
  -- call for the same intent, through any broker, raises the conflict that the intent has an order
  -- and leaves the tables as they are.
  pub submit_once :
      (now order_id trade_intent_id now' order_id' : ℕ) (s : Store) {order : PaperOrder}
      {s' : Store}
      → submit broker client_order_id_for now order_id trade_intent_id s ≡ (ok order, s')
      → (order_by_intent trade_intent_id s'.paper_orders ≡ some order)
        × (submit other_broker client_order_id_for now' order_id' trade_intent_id s'
            ≡ (raise (conflict trade_intent_exists), s'))
  submit_once now order_id trade_intent_id now' order_id' s {order} {s'} h =
      let x = submit-Submitted broker client_order_id_for now order_id trade_intent_id s h in
      let (named, found) = Submitted-found x in
      (
        found,
        submit-exists other_broker client_order_id_for now' order_id' trade_intent_id s'
            {intent = x.intent} (rw x.store_written x.intent_found) found,
      )
