-- ===== src/FillExecution/Progress.antt =====
-- Calls of execute_next (application/services/paper_fill.py) on tables that hold all that it reads.
use auto_trading_v.FillExecution.Steps.{step_of, prepare_step-ok}
use auto_trading_v.Prelude.{
  ℕ, ◌+◌, ◌≤◌, ◌≡◌, refl, sym, subst, inl, inr, true, false, Bool-cases, some, List, [], ◌∷◌, ◌++◌,
  find_first, any, count, length, arith, ok, ◌==◌, ==_refl,
}
use auto_trading_v.PaperOrders.{PaperOrder}
use auto_trading_v.PaperOrders.Shape.{status_eq_refl}
use auto_trading_v.PaperFills.{
  split_plan, PaperFill, key_text, validate_fill_history, PaperOrderFillTransition,
}
use auto_trading_v.UnitOfWork.{
  Store, with_unit_of_work, committed, same_fill, add_fill, transition_meets, after_transition,
  update_orders, transition_after_fill, get_order,
}
use auto_trading_v.UnitOfWork.Tables.{Meets, find-update_met}
use auto_trading_v.FillExecution.{
  Chain, Step, load_chain, expected, next_fill, prepare_step, write_step, execute_body,
  execute_next,
}
use auto_trading_v.FillExecution.Writes.{load_chain-order, load_chain-intent, get_order-order_id}
use auto_trading_v.FillExecution.Lifecycle.{fills_of}

none-meet :
    (t : PaperOrderFillTransition) (orders : List PaperOrder)
    → count (λ o. o.order_id == t.order_id) orders ≡ 0
    → count (transition_meets t) orders ≡ 0
none-meet t [] h = refl
none-meet t (o ∷ orders) h = elim (Bool-cases (o.order_id == t.order_id)) [
  | inl same ↦ absurd (let k = rw same at h in omega arith)
  | inr other ↦ rw other (none-meet t orders (rw other at h))
]

-- One row of the identifier is one row that the UPDATE meets.
one-meets :
    (t : PaperOrderFillTransition) (orders : List PaperOrder) {o : PaperOrder}
    → count (λ o. o.order_id == t.order_id) orders ≡ 1
    → find_first (λ o. o.order_id == t.order_id) orders ≡ some o
    → transition_meets t o ≡ true
    → count (transition_meets t) orders ≡ 1
one-meets t [] one found meets = absurd (cc found)
one-meets t (q ∷ orders) {o} one found meets = elim (Bool-cases (q.order_id == t.order_id)) [
  | inl same ↦
      let is : some q ≡ some o = rw same at found in
      let e : q ≡ o = cc in
      let rest : count (λ o. o.order_id == t.order_id) orders ≡ 0 =
        (let k = rw same at one in omega arith) in
      let this : transition_meets t q ≡ true = rw e meets in rw (this, none-meet t orders rest) refl
  | inr other ↦ rw other (one-meets t orders (rw other at one) (rw other at found) meets)
]

write_step-ok :
    (s : Store) (step : Step) (o : PaperOrder)
    → any (same_fill step.fill) s.paper_fills ≡ false
    → count (λ r. r.order_id == step.transition.order_id) s.paper_orders ≡ 1
    → get_order s step.transition.order_id ≡ some o
    → Meets step.transition o
    → (r : PaperOrder × Store) × (write_step s step ≡ ok r)
unfolding write_step add_fill transition_after_fill
write_step-ok s step o unused once found m =
    let meets : transition_meets step.transition o ≡ true =
      rw
        (
          m.0,
          m.1,
          m.2,
          ==_refl step.transition.order_id,
          ==_refl step.transition.expected_version,
          status_eq_refl step.transition.expected_status,
        )
        refl in
    let one = one-meets step.transition s.paper_orders once found meets in
    let moved = find-update_met step.transition step.transition.order_id s.paper_orders o found m in
    (
      (
        after_transition step.transition o,
        record s {
          paper_fills = s.paper_fills ++ step.fill ∷ [];
          paper_orders = update_orders step.transition s.paper_orders;
        },
      ),
      rw (unused, one, moved) refl,
    )

-- Nothing stands against the next fill of an order.
pub record Ready (now fill_id order_id : ℕ) (s : Store) : Type 0 where
  pub chain : Chain
  pub loaded : load_chain s order_id ≡ ok chain
  pub version : 1 ≤ chain.order.version
  pub in_time : chain.order.updated_at ≤ now
  pub accepted_at : ℕ
  pub acceptance : chain.order.accepted_at ≡ some accepted_at
  pub total : ℕ
  pub history :
      validate_fill_history chain.order.status
        (expected chain accepted_at (split_plan chain.intent.requested_quantity))
        (fills_of s order_id)
      ≡ ok total
  pub stored_once : count (λ o. o.order_id == order_id) s.paper_orders ≡ 1
  pub unused :
      any
        (same_fill (
          next_fill chain fill_id
            (key_text chain.order.order_id (length (fills_of s order_id) + 1))
            (length (fills_of s order_id) + 1)
            0
            now))
        s.paper_fills
      ≡ false

body-by :
    (now fill_id order_id : ℕ) (s : Store) (c : Chain) (step : Step) (r : PaperOrder × Store)
    → load_chain s order_id ≡ ok c
    → prepare_step c (fills_of s order_id) now fill_id ≡ ok step
    → write_step s step ≡ ok r
    → execute_body now fill_id order_id s ≡ ok (committed (step.fill, r.0) r.1)
unfolding execute_body
body-by now fill_id order_id s c step r loaded made wrote = rw (loaded, made, wrote) refl

execute_next-by :
    (now fill_id order_id : ℕ) (s : Store) {f : PaperFill} {o : PaperOrder} {t : Store}
    → execute_body now fill_id order_id s ≡ ok (committed (f, o) t)
    → execute_next now fill_id order_id s ≡ (ok (f, o), t)
unfolding execute_next
execute_next-by now fill_id order_id s h = rw (h, with_unit_of_work)

-- Where the order and its chain of records load, the order has a positive version, was accepted and
-- is not updated later than the clock, its stored fills pass validate_fill_history, one row has its
-- identifier and no stored fill has a unique key of the next fill, execute_next returns a fill and
-- an order: no check of keys, contracts, transitions or tables fails.
pub execute_next_returns :
    (now fill_id order_id : ℕ) (s : Store)
    → Ready now fill_id order_id s
    → (fill : PaperFill) × (order : PaperOrder) × (s' : Store) × (execute_next now fill_id order_id
          s
        ≡ (ok (fill, order), s'))
execute_next_returns now fill_id order_id s x =
    let c = x.chain in
    let fills = fills_of s order_id in
    let found = load_chain-order s order_id x.loaded in
    let id = get_order-order_id s order_id found in
    let (quantity, made) =
      prepare_step-ok c fills now fill_id x.accepted_at x.total
        (load_chain-intent s order_id x.loaded).1 x.version x.in_time x.acceptance x.history in
    let step = step_of c (length fills) x.total quantity now fill_id in
    let (r, wrote) =
      write_step-ok s step c.order x.unused (rw id x.stored_once)
        (subst (λ k. get_order s k ≡ some c.order) (sym id) found) (refl, refl, refl) in
    (
      step.fill,
      r.0,
      r.1,
      execute_next-by now fill_id order_id s
          (body-by now fill_id order_id s c step r x.loaded made wrote),
    )
