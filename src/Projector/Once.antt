-- ===== src/Projector/Once.antt =====
-- Repeated calls of project_fill (application/services/position_projector.py).
use auto_trading_v.Projector.{ProjectionSource, load_projection_source}
use auto_trading_v.Prelude.{find_first-meets, ==_iff, subst}
use auto_trading_v.Prelude.{find_first-append_last, ==_refl}
use auto_trading_v.Prelude.{
  ℕ, ◌≡◌, ap, ◌∙◌, inl, inr, some, none, List, [], ◌∷◌, ◌++◌, find_first, arith, Result, ok, raise,
  Result-cases, Option-cases, ◌==◌,
}
use auto_trading_v.UnitOfWork.{Store, committed, uncommitted, PositionEvent, with_unit_of_work}
use auto_trading_v.Positions.{event_by_fill, add_event}
use auto_trading_v.Projector.{
  ProjectionOutcome, applied, already_applied, ProjectionResult, ServiceError, duplicate_record,
  result_of, project_new, project_body, handle, project_fill,
}
use auto_trading_v.Projector.Applied.{
  Applied, opening, increasing, Projected, project_new-Projected,
}

body-known :
    (position_id event_id fill_id : ℕ) (s : Store) (e : PositionEvent)
    → event_by_fill fill_id s.position_events ≡ some e
    → project_body position_id event_id fill_id s ≡ ok (uncommitted (result_of e already_applied))
unfolding project_body
body-known position_id event_id fill_id s e found = rw (found, project_body)

pub body-fresh :
    (position_id event_id fill_id : ℕ) (s : Store)
    → event_by_fill fill_id s.position_events ≡ none
    → project_body position_id event_id fill_id s ≡ project_new position_id event_id fill_id s
unfolding project_body
body-fresh position_id event_id fill_id s fresh = rw (fresh, project_body)

-- A fill that an event records already is answered from that event, and nothing is written.
pub project_fill-known :
    (position_id event_id fill_id : ℕ) (later s : Store) (e : PositionEvent)
    → event_by_fill fill_id s.position_events ≡ some e
    → project_fill position_id event_id fill_id later s ≡ (ok (result_of e already_applied), s)
unfolding project_fill
project_fill-known position_id event_id fill_id later s e found =
    rw (body-known position_id event_id fill_id s e found, with_unit_of_work)

add_event-eq-ok :
    (events : List PositionEvent) (e : PositionEvent) {after : List PositionEvent}
    → add_event events e ≡ ok after
    → after ≡ events ++ e ∷ []
unfolding add_event
add_event-eq-ok events e h = ground arith

add_event-finds :
    (events : List PositionEvent) (e : PositionEvent) {after : List PositionEvent}
    → event_by_fill e.fill_id events ≡ none
    → add_event events e ≡ ok after
    → event_by_fill e.fill_id after ≡ some e
add_event-finds events e fresh h =
    rw (add_event-eq-ok events e h)
      (find_first-append_last (λ f. f.fill_id == e.fill_id) events e fresh (==_refl e.fill_id))

load-fill :
    (s : Store) (fill_id : ℕ) {x : ProjectionSource}
    → load_projection_source s fill_id ≡ ok x
    → find_first (λ f. f.fill_id == fill_id) s.paper_fills ≡ some x.fill
unfolding load_projection_source
load-fill s fill_id h = ground arith

-- The fill of the source is the one that was asked for.
pub load-fill_id :
    (s : Store) (fill_id : ℕ) {x : ProjectionSource}
    → load_projection_source s fill_id ≡ ok x
    → x.fill.fill_id ≡ fill_id
load-fill_id s fill_id {x} h =
    (==_iff x.fill.fill_id fill_id).0
      (find_first-meets (λ f. f.fill_id == fill_id) s.paper_fills (load-fill s fill_id h))

Applied-finds :
    {position_id event_id : ℕ} {s s' : Store} {r : ProjectionResult} (x : ProjectionSource)
    → event_by_fill x.fill.fill_id s.position_events ≡ none
    → Applied s x position_id event_id r s'
    → (e : PositionEvent) × (event_by_fill x.fill.fill_id s'.position_events ≡ some e)
      × (r ≡ result_of e applied)
Applied-finds {s = s} x fresh (opening values q stored recorded same) =
    (_, add_event-finds s.position_events _ fresh recorded, same)
Applied-finds {s = s} x fresh (increasing p values found q moved recorded same) =
    (_, add_event-finds s.position_events _ fresh recorded, same)

-- The event of a projection is found by its fill.
pub Projected-finds :
    {fill_id position_id event_id : ℕ} {s s' : Store} {r : ProjectionResult}
    → Projected fill_id s position_id event_id r s'
    → (e : PositionEvent) × (event_by_fill fill_id s'.position_events ≡ some e)
      × (r ≡ result_of e applied)
Projected-finds {fill_id} {s = s} {s' = s'} {r = r} p =
    let same = load-fill_id s fill_id p.loaded in
    subst
      (λ k.
        (e : PositionEvent) × (event_by_fill k s'.position_events ≡ some e)
        × (r ≡ result_of e applied))
      same (Applied-finds p.origin (rw same p.fresh) p.written)

pub fill-commits :
    (position_id event_id fill_id : ℕ) (later s : Store) {r : ProjectionResult} {s' : Store}
    → project_body position_id event_id fill_id s ≡ ok (committed r s')
    → project_fill position_id event_id fill_id later s ≡ (ok r, s')
unfolding project_fill
fill-commits position_id event_id fill_id later s h = rw (h, with_unit_of_work)

pub fill-raises :
    (position_id event_id fill_id : ℕ) (later s : Store) {e : ServiceError}
    → project_body position_id event_id fill_id s ≡ raise e
    → project_fill position_id event_id fill_id later s ≡ (handle fill_id later (raise e), s)
unfolding project_fill
fill-raises position_id event_id fill_id later s h = rw (h, with_unit_of_work)

-- What the handler answers after an exception, it answers from an event that is there already.
handle-outcome :
    (fill_id : ℕ) (later : Store) (e : ServiceError) {r : ProjectionResult}
    → handle fill_id later (raise e) ≡ ok r
    → r.outcome ≡ already_applied
unfolding handle
handle-outcome fill_id later (duplicate_record k) h = ground arith
handle-outcome fill_id later _ h = ground arith

answers :
    {x : Result ServiceError ProjectionResult × Store} {r r0 : ProjectionResult} {s s0 : Store}
    → x ≡ (ok r, s)
    → x ≡ (ok r0, s0)
    → (r ≡ r0) × (s ≡ s0)
answers h k = ground arith

answer :
    {x : Result ServiceError ProjectionResult × Store} {r : ProjectionResult}
    {y : Result ServiceError ProjectionResult} {s s0 : Store}
    → x ≡ (ok r, s)
    → x ≡ (y, s0)
    → y ≡ ok r
answer h k = ground arith

not_applied : {o : ProjectionOutcome} → o ≡ applied → o ≡ already_applied → ⊥
not_applied h k = cc

-- A call that reports a fill as applied has applied it.
pub project_fill-Projected :
    (position_id event_id fill_id : ℕ) (later s : Store) {r : ProjectionResult} {s' : Store}
    → project_fill position_id event_id fill_id later s ≡ (ok r, s')
    → r.outcome ≡ applied
    → Projected fill_id s position_id event_id r s'
project_fill-Projected position_id event_id fill_id later s {r} {s'} h is =
    elim (Option-cases (event_by_fill fill_id s.position_events)) [
      | inl fresh ↦ elim (Result-cases (project_new position_id event_id fill_id s)) [
        | inl (e, ended) ↦
            let (r0, s0, same, p) =
              project_new-Projected position_id event_id fill_id s fresh ended in
            let (same_result, same_store) = answers h (
              fill-commits position_id event_id fill_id later s
                (body-fresh position_id event_id fill_id s fresh ∙ ended ∙ ap ok same)) in
            rw (same_result, same_store) p
        | inr (e, raised) ↦ absurd (
            not_applied is (
              handle-outcome fill_id later e (
                answer h (
                  fill-raises position_id event_id fill_id later s
                    (body-fresh position_id event_id fill_id s fresh ∙ raised)))))
      ]
      | inr (e, found) ↦ absurd (
          not_applied is (
            ap (λ t. t.outcome)
              (answers h (project_fill-known position_id event_id fill_id later s e found)).0))
    ]

-- When a call of project_fill has reported a fill as applied, every later call for that fill on the
-- tables it left, whatever identifiers it is given, returns the same values with the outcome
-- already_applied and leaves the tables as they are.
pub project_fill_once :
    (position_id event_id fill_id position_id' event_id' : ℕ) (later later' s : Store)
    {r : ProjectionResult} {s' : Store}
    → project_fill position_id event_id fill_id later s ≡ (ok r, s')
    → r.outcome ≡ applied
    → project_fill position_id' event_id' fill_id later' s'
      ≡ (ok (record r { outcome = already_applied }), s')
project_fill_once position_id event_id fill_id position_id' event_id' later later' s {r} {s'} h is =
    let (e, found, same) =
      Projected-finds (project_fill-Projected position_id event_id fill_id later s h is) in
    rw same (project_fill-known position_id' event_id' fill_id later' s' e found)
