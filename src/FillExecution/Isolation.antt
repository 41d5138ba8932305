-- ===== src/FillExecution/Isolation.antt =====
-- Other orders during a call of execute_next (application/services/paper_fill.py), and runs of calls.
use auto_trading_v.FillExecution.Lifecycle.{Reaches}
use auto_trading_v.FillExecution.Writes.{load_chain-intent}
use mathlib.Core.List.{append-nil, append_assoc}
use auto_trading_v.Prelude.{
  ℕ, ◌≤◌, ◌≡◌, ◌≢◌, refl, sym, ◌∙◌, some, List, [], ◌∷◌, ◌++◌, length, length-append, arith, ok,
  raise,
}
use auto_trading_v.PaperOrders.{PaperOrder}
use auto_trading_v.PaperFills.{PaperFill}
use auto_trading_v.UnitOfWork.{Store, TradeIntent, get_order, get_intent}
use auto_trading_v.UnitOfWork.Tables.{fills_by_order-other, update_orders-other}
use auto_trading_v.UnitOfWork.Transaction.{with_unit_of_work-raise}
use auto_trading_v.FillExecution.{Chain, Step, ExecutionError, execute_body, execute_next}
use auto_trading_v.FillExecution.Effect.{FillCase}
use auto_trading_v.FillExecution.Writes.{
  execute_next-Executed, load_chain-order, get_order-order_id, FillCase-Meets,
}
use auto_trading_v.FillExecution.Lifecycle.{
  fills_of, quantity_of, execute_next-Filled, FillCase-Progress,
}

pub execute_next_atomic :
    (now fill_id order_id : ℕ) (s : Store) {e : ExecutionError} {s' : Store}
    → execute_next now fill_id order_id s ≡ (raise e, s')
    → s' ≡ s
unfolding execute_next
execute_next_atomic now fill_id order_id s h =
    (with_unit_of_work-raise s (execute_body now fill_id order_id) h).1

-- The other orders, their fills, and the tables that are only read stay as they were.
pub record Untouched (other : ℕ) (s s' : Store) : Type 0 where
  pub order : get_order s' other ≡ get_order s other
  pub fills : fills_of s' other ≡ fills_of s other
  pub intents : s'.trade_intents ≡ s.trade_intents
  pub decisions : s'.strategy_decisions ≡ s.strategy_decisions
  pub candidates : s'.candidates ≡ s.candidates
  pub snapshots : s'.market_snapshots ≡ s.market_snapshots
  pub positions : s'.paper_positions ≡ s.paper_positions
  pub events : s'.position_events ≡ s.position_events

-- A call of execute_next that returns leaves every other order, the fills of every other order, and
-- the tables of intents, decisions, candidates, snapshots, positions and events as they were.
pub execute_next-Untouched :
    (now fill_id order_id other : ℕ) (s : Store) {fill : PaperFill} {order : PaperOrder}
    {s' : Store}
    → other ≢ order_id
    → execute_next now fill_id order_id s ≡ (ok (fill, order), s')
    → Untouched other s s'
execute_next-Untouched now fill_id order_id other s {fill} {order} {s'} ne h =
    let x = execute_next-Executed now fill_id order_id s h in
    let found = get_order-order_id s order_id (load_chain-order s order_id x.loaded) in
    let moved = (FillCase-Meets x.chain x.case).0 in
    let t = x.step.transition in
    rw x.store_written (record {
      order = update_orders-other t other s.paper_orders (λ e. ne (e ∙ sym moved ∙ found));
      fills = fills_by_order-other s.paper_fills other x.step.fill (λ e. ne (
          sym e
          ∙ (FillCase-Progress x.chain (load_chain-intent s order_id x.loaded).1 x.case).order_id
          ∙ found));
      intents = refl;
      decisions = refl;
      candidates = refl;
      snapshots = refl;
      positions = refl;
      events = refl;
    })

-- The successful calls for one order, with the fills that they returned, oldest first.
pub data Calls (order_id : ℕ) (s : Store) : List PaperFill → Store → Type 0 where
  start : Calls order_id s [] s
  call :
      {fills : List PaperFill} {t u : Store} (now fill_id : ℕ) (fill : PaperFill)
      (order : PaperOrder)
      → Calls order_id s fills t
      → execute_next now fill_id order_id t ≡ (ok (fill, order), u)
      → Calls order_id s (fills ++ fill ∷ []) u

Calls-fills_of :
    {order_id : ℕ} {s t : Store} {fills : List PaperFill}
    → Calls order_id s fills t
    → fills_of t order_id ≡ fills_of s order_id ++ fills
Calls-fills_of {order_id} {s} start = sym (append-nil (fills_of s order_id))
Calls-fills_of {order_id} {s} (call {fills = fs} {t = t} now fill_id fill order before h) =
    (execute_next-Filled now fill_id order_id t h).appended
    ∙ rw (Calls-fills_of before) (append_assoc (fills_of s order_id) fs (fill ∷ []))

FillCase-length :
    {c : Chain} {fills : List PaperFill} {fill_id now : ℕ} {step : Step}
    → FillCase c fills fill_id now step
    → length fills ≤ 1
FillCase-length (FillCase.first is none_yet made) = rw none_yet (omega arith)
FillCase-length (FillCase.second f is alone two half place made) = rw alone (omega arith)

-- After any run of successful calls of execute_next for an order that had no fill at first, one
-- further successful call leaves at most two fills of the run in all, and their quantities either
-- sum to exactly the intent's requested quantity with the order filled, or to less with the order
-- partially filled.
pub Calls-Reaches :
    (now fill_id order_id : ℕ) (s t u : Store) (fills : List PaperFill) (fill : PaperFill)
    (order : PaperOrder)
    → fills_of s order_id ≡ []
    → Calls order_id s fills t
    → execute_next now fill_id order_id t ≡ (ok (fill, order), u)
    → (length (fills ++ fill ∷ []) ≤ 2)
      × (intent : TradeIntent) × (get_intent t order.trade_intent_id ≡ some intent)
      × Reaches intent.requested_quantity (quantity_of (fills ++ fill ∷ [])) order.status
Calls-Reaches now fill_id order_id s t u fills fill order fresh before h =
    let x = execute_next-Executed now fill_id order_id t h in
    let f = execute_next-Filled now fill_id order_id t h in
    let so_far : fills_of t order_id ≡ fills = rw fresh at (Calls-fills_of before) in
    let few : length fills ≤ 1 = rw so_far at (FillCase-length x.case) in
    (
      omega (arith, length-append fills (fill ∷ [])),
      f.intent,
      rw f.same_intent f.intent_found,
      rw (f.appended, so_far) at f.reaches,
    )
