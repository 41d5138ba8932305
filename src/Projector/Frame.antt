-- ===== src/Projector/Frame.antt =====
-- Orders, fills and intents around a call of project_fill (application/services/position_projector.py).
use auto_trading_v.Prelude.{
  ℕ, ◌≡◌, refl, ap, sym, ◌∙◌, inl, inr, Option, some, none, arith, Result, ok, Result-cases,
  Option-cases, >>=-eq-ok, ok-injective,
}
use auto_trading_v.UnitOfWork.{Store, PaperPosition, Ending, committed}
use auto_trading_v.Positions.{event_by_fill, open_by_key}
use auto_trading_v.Projector.{
  ProjectionSource, ProjectionResult, ServiceError, open_new_position, increase_position,
  apply_source, load_projection_source, project_new, project_fill,
}
use auto_trading_v.Projector.Once.{project_fill-known, body-fresh, fill-commits, fill-raises}

pub record SameOrders (s s' : Store) : Type 0 where
  pub orders : s'.paper_orders ≡ s.paper_orders
  pub fills : s'.paper_fills ≡ s.paper_fills
  pub intents : s'.trade_intents ≡ s.trade_intents

opened-SameOrders :
    (position_id event_id : ℕ) (s : Store) (x : ProjectionSource) {r : ProjectionResult}
    {s' : Store}
    → open_new_position position_id event_id s x ≡ ok (r, s')
    → SameOrders s s'
unfolding open_new_position
opened-SameOrders position_id event_id s x h = record {
  orders = ground arith;
  fills = ground arith;
  intents = ground arith;
}

increased-SameOrders :
    (event_id : ℕ) (s : Store) (x : ProjectionSource) (p : PaperPosition) {r : ProjectionResult}
    {s' : Store}
    → increase_position event_id s x p ≡ ok (r, s')
    → SameOrders s s'
unfolding increase_position
increased-SameOrders event_id s x p h = record {
  orders = ground arith;
  fills = ground arith;
  intents = ground arith;
}

applied-SameOrders :
    (position_id event_id : ℕ) (s : Store) (x : ProjectionSource) (o : Option PaperPosition)
    {r : ProjectionResult} {s' : Store}
    → apply_source position_id event_id s x o ≡ ok (r, s')
    → SameOrders s s'
unfolding apply_source
applied-SameOrders position_id event_id s x none h = opened-SameOrders position_id event_id s x h
applied-SameOrders position_id event_id s x (some p) h = increased-SameOrders event_id s x p h

new-SameOrders :
    (position_id event_id fill_id : ℕ) (s : Store) {e : Ending ProjectionResult}
    → project_new position_id event_id fill_id s ≡ ok e
    → (r : ProjectionResult) × (s' : Store) × (e ≡ committed r s') × SameOrders s s'
unfolding project_new
new-SameOrders position_id event_id fill_id s h =
    let (x, loaded, h1) = >>=-eq-ok (load_projection_source s fill_id) _ h in
    let found =
      open_by_key x.decision.strategy_id x.intent.symbol x.intent.currency s.paper_positions in
    let (done, applied_it, h2) = >>=-eq-ok (apply_source position_id event_id s x found) _ h1 in
    (
      done.0,
      done.1,
      sym (ok-injective h2),
      applied-SameOrders position_id event_id s x found applied_it,
    )

-- Whether it returns or raises.
pub project_fill-SameOrders :
    (position_id event_id fill_id : ℕ) (later s : Store) {y : Result ServiceError ProjectionResult}
    {s' : Store}
    → project_fill position_id event_id fill_id later s ≡ (y, s')
    → SameOrders s s'
project_fill-SameOrders position_id event_id fill_id later s returned =
    elim (Option-cases (event_by_fill fill_id s.position_events)) [
      | inl fresh ↦ elim (Result-cases (project_new position_id event_id fill_id s)) [
        | inl (e, ended) ↦
            let (r0, s0, same, kept) = new-SameOrders position_id event_id fill_id s ended in
            let stored = same_store returned (
              fill-commits position_id event_id fill_id later s
                (body-fresh position_id event_id fill_id s fresh ∙ ended ∙ ap ok same)) in
            rw stored kept
        | inr (e, raised) ↦
            let stored = same_store returned (
              fill-raises position_id event_id fill_id later s
                (body-fresh position_id event_id fill_id s fresh ∙ raised)) in
            rw stored unchanged
      ]
      | inr (e, found) ↦
          let stored =
            same_store returned (project_fill-known position_id event_id fill_id later s e found) in
          rw stored unchanged
    ]
  where
    same_store :
        {a : Result ServiceError ProjectionResult × Store}
        {x z : Result ServiceError ProjectionResult} {s1 s2 : Store}
        → a ≡ (x, s1)
        → a ≡ (z, s2)
        → s1 ≡ s2
    same_store h k = ap (λ t. t.1) (sym h ∙ k)

    unchanged : SameOrders s s
    unchanged = record { orders = refl; fills = refl; intents = refl }
