-- ===== src/Projector/Applied.antt =====
-- The writes of project_fill (application/services/position_projector.py).
use auto_trading_v.Prelude.{raise_if, ltb, Option-cases}
use auto_trading_v.Projector.{invalid_fill, fill_precedes_position}
use auto_trading_v.Positions.{PaperPositionBuyTransition}
use auto_trading_v.Prelude.{
  ℕ, ◌+◌, ◌≡◌, ap, sym, ◌∙◌, inl, inr, Option, some, none, arith, Result, ok, >>=-eq-ok,
  ok-injective, map_error, map_error-eq-ok,
}
use auto_trading_v.Decimals.{Decimal}
use auto_trading_v.UnitOfWork.{
  Store, Ending, committed, PaperPosition, opened, increased, PositionEvent,
}
use auto_trading_v.Positions.{
  BuyPositionValues, calculate_buy_position, new_paper_position, new_buy_transition,
  new_position_event, open_by_key, add_position, event_by_fill, add_event,
  transition_after_buy_fill, opening_values, increased_values,
}
use auto_trading_v.Projector.{
  ProjectionSource, ProjectionResult, ServiceError, validation, duplicate_record, transition_error,
  calculation_error, applied, load_projection_source, result_of, event_of, zero_pnl, position_for,
  buy_transition, open_new_position, increase_position, apply_source, project_new,
}

-- The writes of a fill that opened a position, and of one that increased one.
pub data Applied (s : Store) (x : ProjectionSource) (position_id event_id : ℕ)
    (r : ProjectionResult) (s' : Store) : Type 0 where
  opening :
      (values : BuyPositionValues)
      → values.quantity ≡ x.fill.quantity
      → add_position s.paper_positions (position_for x position_id values) ≡ ok s'.paper_positions
      → add_event s.position_events (event_of x event_id position_id opened 1 values (zero_pnl x))
        ≡ ok s'.position_events
      → r ≡ result_of (event_of x event_id position_id opened 1 values (zero_pnl x)) applied
      → Applied s x position_id event_id r s'
  increasing :
      (p : PaperPosition) (values : BuyPositionValues)
      → open_by_key x.decision.strategy_id x.intent.symbol x.intent.currency s.paper_positions
        ≡ some p
      → values.quantity ≡ p.quantity + x.fill.quantity
      → transition_after_buy_fill s.paper_positions (buy_transition x p values)
        ≡ ok s'.paper_positions
      → add_event s.position_events
          (event_of x event_id p.position_id increased (p.version + 1) values p.realized_pnl)
        ≡ ok s'.position_events
      → r
        ≡ result_of
            (event_of x event_id p.position_id increased (p.version + 1) values p.realized_pnl)
            applied
      → Applied s x position_id event_id r s'

new_paper_position-eq-ok :
    (p : PaperPosition) {q : PaperPosition} → new_paper_position p ≡ ok q → q ≡ p
unfolding new_paper_position
new_paper_position-eq-ok p h = ground arith

new_position_event-eq-ok :
    (e : PositionEvent) {f : PositionEvent} → new_position_event e ≡ ok f → f ≡ e
unfolding new_position_event
new_position_event-eq-ok e h = ground arith

opening-quantity :
    (q : ℕ) (p : Decimal) {v : BuyPositionValues}
    → calculate_buy_position q p none none ≡ ok v
    → v.quantity ≡ q
unfolding calculate_buy_position opening_values
opening-quantity q p h = ground arith

increasing-quantity :
    (q : ℕ) (p : Decimal) (n : ℕ) (a : Decimal) {v : BuyPositionValues}
    → calculate_buy_position q p (some n) (some a) ≡ ok v
    → v.quantity ≡ n + q
unfolding calculate_buy_position increased_values
increasing-quantity q p n a h = ground arith

open_new_position-Applied :
    (s : Store) (x : ProjectionSource) (position_id event_id : ℕ) {r : ProjectionResult}
    {s' : Store}
    → open_new_position position_id event_id s x ≡ ok (r, s')
    → Applied s x position_id event_id r s'
unfolding open_new_position
open_new_position-Applied s x position_id event_id h =
    let (values, calculated, h1) =
      >>=-eq-ok
        (map_error calculation_error
          (calculate_buy_position x.fill.quantity x.fill.price none none))
        _ h in
    let (position, valid, h2) =
      >>=-eq-ok (map_error validation (new_paper_position (position_for x position_id values))) _
        h1 in
    let (positions, stored, h3) =
      >>=-eq-ok (map_error duplicate_record (add_position s.paper_positions position)) _ h2 in
    let (event, made, h4) =
      >>=-eq-ok
        (map_error validation
          (new_position_event (event_of x event_id position_id opened 1 values (zero_pnl x))))
        _ h3 in
    let (events, recorded, h5) =
      >>=-eq-ok (map_error duplicate_record (add_event s.position_events event)) _ h4 in
    let same_position = new_paper_position-eq-ok _ (map_error-eq-ok validation _ valid) in
    let same_event = new_position_event-eq-ok _ (map_error-eq-ok validation _ made) in
    let done = ok-injective h5 in
    opening values
      (opening-quantity x.fill.quantity x.fill.price
        (map_error-eq-ok calculation_error _ calculated))
      (rw same_position at (map_error-eq-ok duplicate_record _ stored)
        ∙ ap (λ t. ok (t.1.paper_positions)) done)
      (rw same_event at (map_error-eq-ok duplicate_record _ recorded)
        ∙ ap (λ t. ok (t.1.position_events)) done)
      (sym (ap (λ t. t.0) done) ∙ ap (λ e. result_of e applied) same_event)

new_buy_transition-eq-ok :
    (t : PaperPositionBuyTransition) {u : PaperPositionBuyTransition}
    → new_buy_transition t ≡ ok u
    → u ≡ t
unfolding new_buy_transition
new_buy_transition-eq-ok t h = ground arith

increase_position-Applied :
    (s : Store) (x : ProjectionSource) (p : PaperPosition) (position_id event_id : ℕ)
    {r : ProjectionResult} {s' : Store}
    → open_by_key x.decision.strategy_id x.intent.symbol x.intent.currency s.paper_positions
      ≡ some p
    → increase_position event_id s x p ≡ ok (r, s')
    → Applied s x position_id event_id r s'
unfolding increase_position
increase_position-Applied s x p position_id event_id found h =
    let (in_order, checked, h1) =
      >>=-eq-ok
        (raise_if (ltb x.fill.executed_at p.updated_at) (invalid_fill fill_precedes_position)) _
        h in
    let (values, calculated, h2) =
      >>=-eq-ok
        (map_error calculation_error (
          calculate_buy_position x.fill.quantity x.fill.price (some p.quantity)
            (some p.average_cost_price)))
        _ h1 in
    let (event, made, h3) =
      >>=-eq-ok
        (map_error validation (
          new_position_event
            (event_of x event_id p.position_id increased (p.version + 1) values p.realized_pnl)))
        _ h2 in
    let (events, recorded, h4) =
      >>=-eq-ok (map_error duplicate_record (add_event s.position_events event)) _ h3 in
    let (transition, valid, h5) =
      >>=-eq-ok (map_error validation (new_buy_transition (buy_transition x p values))) _ h4 in
    let (positions, moved, h6) =
      >>=-eq-ok
        (map_error transition_error (transition_after_buy_fill s.paper_positions transition)) _
        h5 in
    let same_event = new_position_event-eq-ok _ (map_error-eq-ok validation _ made) in
    let same_transition = new_buy_transition-eq-ok _ (map_error-eq-ok validation _ valid) in
    let done = ok-injective h6 in
    increasing p values found
      (increasing-quantity x.fill.quantity x.fill.price p.quantity p.average_cost_price
        (map_error-eq-ok calculation_error _ calculated))
      (rw same_transition at (map_error-eq-ok transition_error _ moved)
        ∙ ap (λ t. ok (t.1.paper_positions)) done)
      (rw same_event at (map_error-eq-ok duplicate_record _ recorded)
        ∙ ap (λ t. ok (t.1.position_events)) done)
      (sym (ap (λ t. t.0) done) ∙ ap (λ e. result_of e applied) same_event)

apply_source-Applied :
    (s : Store) (x : ProjectionSource) (position_id event_id : ℕ) {r : ProjectionResult}
    {s' : Store}
    → apply_source position_id event_id s x
        (open_by_key x.decision.strategy_id x.intent.symbol x.intent.currency s.paper_positions)
      ≡ ok (r, s')
    → Applied s x position_id event_id r s'
unfolding apply_source
apply_source-Applied s x position_id event_id h =
    elim (Option-cases
      (open_by_key x.decision.strategy_id x.intent.symbol x.intent.currency s.paper_positions)) [
        | inl absent ↦ open_new_position-Applied s x position_id event_id (opens absent h)
        | inr (p, found) ↦
            increase_position-Applied s x p position_id event_id found (increases p found h)
      ]
  where
    opens :
        {r : Result ServiceError (ProjectionResult × Store)} {o : Option PaperPosition}
        → o ≡ none
        → apply_source position_id event_id s x o ≡ r
        → open_new_position position_id event_id s x ≡ r
    opens e k = rw e at k

    increases :
        (p : PaperPosition) {r : Result ServiceError (ProjectionResult × Store)}
        {o : Option PaperPosition}
        → o ≡ some p
        → apply_source position_id event_id s x o ≡ r
        → increase_position event_id s x p ≡ r
    increases p e k = rw e at k

-- A projection that applied its fill, with the source that it read.
pub record Projected (fill_id : ℕ) (s : Store) (position_id event_id : ℕ) (r : ProjectionResult)
    (s' : Store) : Type 0 where
  pub fresh : event_by_fill fill_id s.position_events ≡ none
  pub origin : ProjectionSource
  pub loaded : load_projection_source s fill_id ≡ ok origin
  pub written : Applied s origin position_id event_id r s'

pub project_new-Projected :
    (position_id event_id fill_id : ℕ) (s : Store) {e : Ending ProjectionResult}
    → event_by_fill fill_id s.position_events ≡ none
    → project_new position_id event_id fill_id s ≡ ok e
    → (r : ProjectionResult) × (s' : Store) × (e ≡ committed r s')
      × Projected fill_id s position_id event_id r s'
unfolding project_new
project_new-Projected position_id event_id fill_id s fresh h =
    let (x, loaded, h1) = >>=-eq-ok (load_projection_source s fill_id) _ h in
    let (done, applied_it, h2) =
      >>=-eq-ok
        (apply_source position_id event_id s x
          (open_by_key x.decision.strategy_id x.intent.symbol x.intent.currency s.paper_positions))
        _ h1 in
    (
      done.0,
      done.1,
      sym (ok-injective h2),
      record {
        fresh = fresh;
        origin = x;
        loaded = loaded;
        written = apply_source-Applied s x position_id event_id applied_it;
      },
    )
