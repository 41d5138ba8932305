-- ===== src/Projector/Balance.antt =====
-- Positions and their events around a call of project_fill (application/services/position_projector.py).
use auto_trading_v.Projector.Agreement.{
  any-append, add_position-eq-ok, buy-eq-ok, event-eq-ok, AllAgree-added, any-update, finds-any,
  found-OnlyRow, Grows, AllAgree-updated,
}
use auto_trading_v.Prelude.{
  ℕ, ◌≡◌, refl, ap, sym, ◌∙◌, inl, inr, true, ◌||◌, Bool, some, List, [], ◌∷◌, ◌++◌, find_first,
  find_first-meets, any, arith, Result, ok, ==_refl, Option-cases, Result-cases,
}
use auto_trading_v.UnitOfWork.{PaperPosition, PositionEvent, Store}
use auto_trading_v.Positions.{
  PaperPositionBuyTransition, update_positions, position_of_key, is_open, add_position, add_event,
  transition_after_buy_fill, open_by_key,
}
use auto_trading_v.Projector.{ProjectionResult, ProjectionSource, ServiceError, project_fill}
use auto_trading_v.Projector.Applied.{Applied, opening, increasing}
use auto_trading_v.Projector.Once.{project_fill-known, body-fresh, fill-commits, fill-raises}
use auto_trading_v.Projector.Applied.{project_new-Projected}
use auto_trading_v.Projector.{project_new}
use auto_trading_v.Positions.{event_by_fill}
use auto_trading_v.Projector.Ledger.{
  has_id, AllAgree, AllNamed, events_of-unnamed, events_of-append_same,
}

AllNamed-kept :
    (ps qs : List PaperPosition) (es : List PositionEvent)
    → ((k : ℕ) → any (has_id k) ps ≡ true → any (has_id k) qs ≡ true)
    → AllNamed ps es
    → AllNamed qs es
AllNamed-kept ps qs [] keeps h = tt
AllNamed-kept ps qs (e ∷ es) keeps h = (keeps e.position_id h.0, AllNamed-kept ps qs es keeps h.1)

AllNamed-added :
    (ps : List PaperPosition) (es : List PositionEvent) (e : PositionEvent)
    → AllNamed ps es
    → any (has_id e.position_id) ps ≡ true
    → AllNamed ps (es ++ e ∷ [])
AllNamed-added ps [] e h there = (there, tt)
AllNamed-added ps (f ∷ es) e h there = (h.0, AllNamed-added ps es e h.1 there)

-- The positions and the events of a store, in balance.
abbrev pub Balanced : Store → Type 0
Balanced s =
    AllAgree s.paper_positions s.position_events × AllNamed s.paper_positions s.position_events

added-Balanced :
    (ps : List PaperPosition) (es : List PositionEvent) (p : PaperPosition) (e : PositionEvent)
    {qs : List PaperPosition} {fs : List PositionEvent}
    → AllAgree ps es
    → AllNamed ps es
    → add_position ps p ≡ ok qs
    → add_event es e ≡ ok fs
    → e.position_id ≡ p.position_id
    → p.quantity ≡ e.quantity_delta
    → p.version ≡ 1
    → AllAgree qs fs × AllNamed qs fs
added-Balanced ps es p e {qs} {fs} agree named stored recorded same quantity version =
    let (eq, fresh) = add_position-eq-ok ps p stored in
    rw (eq, event-eq-ok es e recorded)
      (
        AllAgree-added ps es p e agree fresh same (record {
          quantity =
              rw
                (
                  events_of-append_same p.position_id es e same,
                  events_of-unnamed p.position_id ps es named fresh,
                )
                (omega (arith, quantity));
          version =
              rw
                (
                  events_of-append_same p.position_id es e same,
                  events_of-unnamed p.position_id ps es named fresh,
                )
                version;
        }),
        AllNamed-added (ps ++ p ∷ []) es e
            (AllNamed-kept ps (ps ++ p ∷ []) es (λ k there. rw (any-append k ps p) (ground arith))
              named)
            (rw (any-append e.position_id ps p, same, ==_refl p.position_id) (or-true _)),
      )
  where
    or-true : (b : Bool) → (b || true) ≡ true
    or-true b = ground arith

updated-Balanced :
    (f : PaperPosition → Bool) (ps : List PaperPosition) (es : List PositionEvent)
    (t : PaperPositionBuyTransition) (p : PaperPosition) (e : PositionEvent)
    {qs : List PaperPosition} {fs : List PositionEvent}
    → AllAgree ps es
    → AllNamed ps es
    → find_first f ps ≡ some p
    → transition_after_buy_fill ps t ≡ ok qs
    → add_event es e ≡ ok fs
    → Grows t p e
    → AllAgree qs fs × AllNamed qs fs
updated-Balanced f ps es t p e agree named found moved recorded g =
    rw (buy-eq-ok ps t moved, event-eq-ok es e recorded)
      (
        AllAgree-updated t p ps es e agree (found-OnlyRow f ps es agree found) g,
        AllNamed-added (update_positions t ps) es e
            (AllNamed-kept ps (update_positions t ps) es (λ k there. any-update t k ps ∙ there)
              named)
            (any-update t e.position_id ps ∙ rw g.named (finds-any f ps found)),
      )

open_of_key :
    (strategy_id : ℕ) (symbol currency : List ℕ) (ps : List PaperPosition) {p : PaperPosition}
    → open_by_key strategy_id symbol currency ps ≡ some p
    → is_open p.status ≡ true
open_of_key strategy_id symbol currency ps h =
    let meets = find_first-meets (position_of_key strategy_id symbol currency) ps h in ground arith

Applied-Balanced :
    {s s' : Store} {position_id event_id : ℕ} {r : ProjectionResult} (x : ProjectionSource)
    → Balanced s
    → Applied s x position_id event_id r s'
    → Balanced s'
Applied-Balanced {s} x h (opening values quantity stored recorded same) =
    added-Balanced s.paper_positions s.position_events _ _ h.0 h.1 stored recorded refl quantity
      refl
Applied-Balanced {s} x h (increasing p values found quantity moved recorded same) =
    updated-Balanced (position_of_key x.decision.strategy_id x.intent.symbol x.intent.currency)
      s.paper_positions s.position_events _ p _ h.0 h.1 found moved recorded
      (record {
        open_row =
            open_of_key x.decision.strategy_id x.intent.symbol x.intent.currency s.paper_positions
              found;
        position_id = refl;
        named = refl;
        grown = quantity;
        expected_version = refl;
      })

-- If every stored position has the sum of its events' quantities as its quantity and the number of
-- its events as its version, positions have distinct identifiers and every event names a stored
-- position, then the same holds of the tables after any call of project_fill, whether it returns or
-- raises.
pub project_fill-Balanced :
    (position_id event_id fill_id : ℕ) (later s : Store) {y : Result ServiceError ProjectionResult}
    {s' : Store}
    → Balanced s
    → project_fill position_id event_id fill_id later s ≡ (y, s')
    → Balanced s'
project_fill-Balanced position_id event_id fill_id later s h returned =
    elim (Option-cases (event_by_fill fill_id s.position_events)) [
      | inl fresh ↦ elim (Result-cases (project_new position_id event_id fill_id s)) [
        | inl (e, ended) ↦
            let (r0, s0, same, p) =
              project_new-Projected position_id event_id fill_id s fresh ended in
            let stored = same_store returned (
              fill-commits position_id event_id fill_id later s
                (body-fresh position_id event_id fill_id s fresh ∙ ended ∙ ap ok same)) in
            rw stored (Applied-Balanced p.origin h p.written)
        | inr (e, raised) ↦
            let stored = same_store returned (
              fill-raises position_id event_id fill_id later s
                (body-fresh position_id event_id fill_id s fresh ∙ raised)) in
            rw stored h
      ]
      | inr (e, found) ↦
          rw (same_store returned (project_fill-known position_id event_id fill_id later s e found))
            h
    ]
  where
    same_store :
        {a : Result ServiceError ProjectionResult × Store}
        {x z : Result ServiceError ProjectionResult} {s1 s2 : Store}
        → a ≡ (x, s1)
        → a ≡ (z, s2)
        → s1 ≡ s2
    same_store h k = ap (λ t. t.1) (sym h ∙ k)
