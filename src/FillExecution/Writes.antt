-- ===== src/FillExecution/Writes.antt =====
-- The writes of execute_next (application/services/paper_fill.py).
use Prim.Native.Nat.{◌≤◌}
use auto_trading_v.UnitOfWork.{get_intent}
use auto_trading_v.Prelude.{inl, inr}
use auto_trading_v.UnitOfWork.Transaction.{with_unit_of_work-ok}
use auto_trading_v.Prelude.{ap}
use auto_trading_v.Prelude.{sym, ok-injective}
use auto_trading_v.Prelude.{
  ℕ, ◌≡◌, refl, some, List, [], ◌∷◌, ◌++◌, arith, ok, >>=-eq-ok, map_error, map_error-eq-ok,
  find_first-meets, ==_iff,
}
use auto_trading_v.PaperOrders.{PaperOrder}
use auto_trading_v.PaperFills.{PaperFill}
use auto_trading_v.UnitOfWork.{
  Store, Ending, committed, get_order, fills_by_order, add_fill, transition_after_fill,
  after_transition, update_orders,
}
use auto_trading_v.UnitOfWork.Tables.{Meets, add_fill-eq-ok, transition_after_fill-eq-ok}
use auto_trading_v.FillExecution.{
  Chain, Step, load_chain, prepare_step, write_step, execute_body, execute_next, order_conflict,
  order_concurrency,
}
use auto_trading_v.FillExecution.Effect.{FillCase, prepare_step-FillCase}

pub load_chain-order :
    (s : Store) (order_id : ℕ) {c : Chain}
    → load_chain s order_id ≡ ok c
    → get_order s order_id ≡ some c.order
unfolding load_chain
load_chain-order s order_id h = ground arith

pub load_chain-intent :
    (s : Store) (order_id : ℕ) {c : Chain}
    → load_chain s order_id ≡ ok c
    → (get_intent s c.order.trade_intent_id ≡ some c.intent) × (1 ≤ c.intent.requested_quantity)
unfolding load_chain
load_chain-intent s order_id h = ground arith

-- The tables after a step.
abbrev pub written : Store → Step → Store
written s step = record s {
  paper_fills = s.paper_fills ++ step.fill ∷ [];
  paper_orders = update_orders step.transition s.paper_orders;
}

write_step-eq-ok :
    (s : Store) (step : Step) (o : PaperOrder) {r : PaperOrder × Store}
    → get_order s step.transition.order_id ≡ some o
    → Meets step.transition o
    → write_step s step ≡ ok r
    → r ≡ (after_transition step.transition o, written s step)
unfolding write_step
write_step-eq-ok s step o found meets h =
    let (fills, added, h1) =
      >>=-eq-ok (map_error (λ _. order_conflict) (add_fill s.paper_fills step.fill)) _ h in
    let (moved, update, h2) =
      >>=-eq-ok
        (map_error (λ _. order_concurrency) (transition_after_fill s.paper_orders step.transition))
        _ h1 in
    let same_fills = (add_fill-eq-ok s.paper_fills step.fill (map_error-eq-ok _ _ added)).0 in
    let same_orders =
      transition_after_fill-eq-ok s.paper_orders step.transition o found meets
        (map_error-eq-ok _ _ update) in
    rw (same_orders, same_fills) at (sym (ok-injective h2))

-- What a call that returned has found, made and written.
pub record Executed (now fill_id order_id : ℕ) (s : Store) (fill : PaperFill) (order : PaperOrder)
    (s' : Store) : Type 0 where
  pub chain : Chain
  pub loaded : load_chain s order_id ≡ ok chain
  pub step : Step
  pub case : FillCase chain (fills_by_order s.paper_fills order_id) fill_id now step
  pub fill_made : fill ≡ step.fill
  pub order_moved : order ≡ after_transition step.transition chain.order
  pub store_written : s' ≡ written s step

pub FillCase-Meets :
    {fills : List PaperFill} {fill_id now : ℕ} {step : Step} (c : Chain)
    → FillCase c fills fill_id now step
    → Meets step.transition c.order
FillCase-Meets c (FillCase.first is none_yet made) = rw made.transition (refl, refl, refl)
FillCase-Meets c (FillCase.second f is one two half place made) =
    rw made.transition (refl, refl, refl)

pub get_order-order_id :
    (s : Store) (k : ℕ) {o : PaperOrder} → get_order s k ≡ some o → o.order_id ≡ k
get_order-order_id s k {o} h = (==_iff o.order_id k).0 (find_first-meets _ s.paper_orders h)

execute_body-Executed :
    (now fill_id order_id : ℕ) (s : Store) {e : Ending (PaperFill × PaperOrder)}
    → execute_body now fill_id order_id s ≡ ok e
    → (fill : PaperFill) × (order : PaperOrder) × (s' : Store) × (e ≡ committed (fill, order) s')
      × Executed now fill_id order_id s fill order s'
unfolding execute_body
execute_body-Executed now fill_id order_id s h =
    let (c, loaded, h1) = >>=-eq-ok (load_chain s order_id) _ h in
    let (step, made, h2) =
      >>=-eq-ok (prepare_step c (fills_by_order s.paper_fills order_id) now fill_id) _ h1 in
    let (after, wrote, h3) = >>=-eq-ok (write_step s step) _ h2 in
    let case = prepare_step-FillCase c (fills_by_order s.paper_fills order_id) now fill_id made in
    let meets = FillCase-Meets c case in
    let found = load_chain-order s order_id loaded in
    let found_again : get_order s step.transition.order_id ≡ some c.order =
      rw (← meets.0, get_order-order_id s order_id found) found in
    let same = write_step-eq-ok s step c.order found_again meets wrote in
    (
      step.fill,
      after.0,
      after.1,
      sym (ok-injective h3),
      record {
        chain = c;
        loaded = loaded;
        step = step;
        case = case;
        fill_made = refl;
        order_moved = ap (λ r. r.0) same;
        store_written = ap (λ r. r.1) same;
      },
    )

committed-injective :
    {f g : PaperFill} {o p : PaperOrder} {t u : Store}
    → ◌≡◌ {A = Ending (PaperFill × PaperOrder)} (committed (f, o) t) (committed (g, p) u)
    → (f ≡ g) × (o ≡ p) × (t ≡ u)
committed-injective h = ground arith

pub execute_next-Executed :
    (now fill_id order_id : ℕ) (s : Store) {fill : PaperFill} {order : PaperOrder} {s' : Store}
    → execute_next now fill_id order_id s ≡ (ok (fill, order), s')
    → Executed now fill_id order_id s fill order s'
unfolding execute_next
execute_next-Executed now fill_id order_id s h =
    elim (with_unit_of_work-ok s (execute_body now fill_id order_id) h) [
      | inl wrote ↦
          let (fill, order, s', same, facts) = execute_body-Executed now fill_id order_id s wrote in
          by_ending (committed-injective same) facts
      | inr kept ↦
          let (fill, order, s', same, facts) =
            execute_body-Executed now fill_id order_id s kept.0 in
          absurd (cc same)
    ]
  where
    by_ending :
        {f g : PaperFill} {o p : PaperOrder} {t u : Store}
        → (f ≡ g) × (o ≡ p) × (t ≡ u)
        → Executed now fill_id order_id s g p u
        → Executed now fill_id order_id s f o t
    by_ending (e, e', e'') x = rw (e, e', e'') x
