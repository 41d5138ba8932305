-- ===== src/Projector/Ledger.antt =====
-- Sums and counts of the events of a position (domain/position_projection).
use mathlib.Core.List.{append-nil}
use native.Mathlib.Decide.{ℕ_discrete}
use auto_trading_v.Prelude.{
  ℕ, ◌+◌, ◌≡◌, ◌≢◌, refl, true, false, Bool, List, [], ◌∷◌, ◌++◌, any, length, length-append,
  sum_of, sum_of-append, select, select-append, arith, ◌==◌,
}
use auto_trading_v.UnitOfWork.{PaperPosition, PositionEvent}

abbrev pub events_of : ℕ → List PositionEvent → List PositionEvent
events_of k events = select (λ e. e.position_id == k) events

abbrev pub has_id : ℕ → PaperPosition → Bool
has_id k p = p.position_id == k

-- A position agrees with the events.
pub record Agrees (p : PaperPosition) (events : List PositionEvent) : Type 0 where
  pub quantity : p.quantity ≡ sum_of (λ e. e.quantity_delta) (events_of p.position_id events)
  pub version : p.version ≡ length (events_of p.position_id events)

-- Every position agrees with the events, and no two have one identifier.
abbrev pub AllAgree : List PaperPosition → List PositionEvent → Type 0
AllAgree [] events = Unit
AllAgree (p ∷ ps) events =
    Agrees p events × (any (has_id p.position_id) ps ≡ false) × AllAgree ps events

-- Every event names a position that is stored.
abbrev pub AllNamed : List PaperPosition → List PositionEvent → Type 0
AllNamed positions [] = Unit
AllNamed positions (e ∷ events) =
    (any (has_id e.position_id) positions ≡ true) × AllNamed positions events

pub events_of-append_same :
    (k : ℕ) (events : List PositionEvent) (e : PositionEvent)
    → e.position_id ≡ k
    → events_of k (events ++ e ∷ []) ≡ events_of k events ++ e ∷ []
events_of-append_same k events e h =
    rw (select-append (λ r. r.position_id == k) events (e ∷ [])) (rw (one k e h))
  where
    one : (k : ℕ) (e : PositionEvent) → e.position_id ≡ k → events_of k (e ∷ []) ≡ e ∷ []
    one k e h = ground arith

events_of-append_other :
    (k : ℕ) (events : List PositionEvent) (e : PositionEvent)
    → e.position_id ≢ k
    → events_of k (events ++ e ∷ []) ≡ events_of k events
events_of-append_other k events e h =
    rw (select-append (λ r. r.position_id == k) events (e ∷ [])) (rw (none_of k e h) (append-nil _))
  where
    none_of : (k : ℕ) (e : PositionEvent) → e.position_id ≢ k → events_of k (e ∷ []) ≡ []
    none_of k e h = ground arith

-- An event of another position changes nothing for this one.
pub Agrees-other :
    (p : PaperPosition) (events : List PositionEvent) (e : PositionEvent)
    → e.position_id ≢ p.position_id
    → Agrees p events
    → Agrees p (events ++ e ∷ [])
Agrees-other p events e ne h = record {
  quantity = rw (events_of-append_other p.position_id events e ne) h.quantity;
  version = rw (events_of-append_other p.position_id events e ne) h.version;
}

-- A position that grows by an event's quantity agrees with the events and that one.
pub Agrees-grown :
    (p q : PaperPosition) (events : List PositionEvent) (e : PositionEvent)
    → Agrees p events
    → q.position_id ≡ p.position_id
    → e.position_id ≡ p.position_id
    → q.quantity ≡ p.quantity + e.quantity_delta
    → q.version ≡ p.version + 1
    → Agrees q (events ++ e ∷ [])
Agrees-grown p q events e h same named grown counted = record {
  quantity =
      rw (same, events_of-append_same p.position_id events e named, sum_of-append)
        (omega (arith, grown, h.quantity));
  version =
      rw (same, events_of-append_same p.position_id events e named, length-append)
        (omega (arith, counted, h.version));
}

-- Events of a position that is not stored: there are none.
pub events_of-unnamed :
    (k : ℕ) (positions : List PaperPosition) (events : List PositionEvent)
    → AllNamed positions events
    → any (has_id k) positions ≡ false
    → events_of k events ≡ []
events_of-unnamed k positions [] h absent = refl
events_of-unnamed k positions (e ∷ events) h absent = elim (ℕ_discrete e.position_id k) [
  | yes same ↦ absurd (let found = rw same at h.0 in cc)
  | no other ↦ ground (arith, events_of-unnamed k positions events h.1 absent)
]
