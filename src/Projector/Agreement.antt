-- ===== src/Projector/Agreement.antt =====
-- Positions and their events in the two writes of project_fill (application/services/position_projector.py).
use native.Mathlib.Decide.{ℕ_discrete}
use auto_trading_v.Prelude.{
  ℕ, ◌+◌, ◌≡◌, ◌≢◌, refl, ap, sym, ◌∙◌, inl, inr, true, false, ◌||◌, Bool, Bool-cases, some, List,
  [], ◌∷◌, ◌++◌, find_first, any, arith, ok, ==_refl,
}
use auto_trading_v.UnitOfWork.{PaperPosition, PositionEvent}
use auto_trading_v.Positions.{
  PaperPositionBuyTransition, buy_meets, after_buy, update_positions, is_open, add_position,
  add_event, transition_after_buy_fill,
}
use auto_trading_v.Projector.Ledger.{has_id, Agrees, AllAgree, Agrees-other, Agrees-grown}

pub any-append :
    (k : ℕ) (ps : List PaperPosition) (p : PaperPosition)
    → any (has_id k) (ps ++ p ∷ []) ≡ (any (has_id k) ps || has_id k p)
any-append k [] p = ground arith
any-append k (q ∷ ps) p = ground (arith, any-append k ps p)

pub add_position-eq-ok :
    (ps : List PaperPosition) (p : PaperPosition) {after : List PaperPosition}
    → add_position ps p ≡ ok after
    → (after ≡ ps ++ p ∷ []) × (any (has_id p.position_id) ps ≡ false)
unfolding add_position
add_position-eq-ok ps p h = ground arith

pub buy-eq-ok :
    (ps : List PaperPosition) (t : PaperPositionBuyTransition) {after : List PaperPosition}
    → transition_after_buy_fill ps t ≡ ok after
    → after ≡ update_positions t ps
unfolding transition_after_buy_fill
buy-eq-ok ps t h = ground arith

pub event-eq-ok :
    (es : List PositionEvent) (e : PositionEvent) {after : List PositionEvent}
    → add_event es e ≡ ok after
    → after ≡ es ++ e ∷ []
unfolding add_event
event-eq-ok es e h = ground arith

pub AllAgree-added :
    (ps : List PaperPosition) (es : List PositionEvent) (p : PaperPosition) (e : PositionEvent)
    → AllAgree ps es
    → any (has_id p.position_id) ps ≡ false
    → e.position_id ≡ p.position_id
    → Agrees p (es ++ e ∷ [])
    → AllAgree (ps ++ p ∷ []) (es ++ e ∷ [])
AllAgree-added [] es p e h fresh named agrees = (agrees, refl, tt)
AllAgree-added (q ∷ ps) es p e h fresh named agrees = (
  Agrees-other q es e (ground arith) h.0,
  rw (any-append q.position_id ps p) (ground (arith, h.1)),
  AllAgree-added ps es p e h.2 (ground arith) named agrees,
)

-- A row of the same identifier is this row.
abbrev OnlyRow : PaperPosition → List PaperPosition → Type 0
OnlyRow p [] = Unit
OnlyRow p (q ∷ qs) = (q.position_id ≡ p.position_id → q ≡ p) × OnlyRow p qs

pub any-update :
    (t : PaperPositionBuyTransition) (k : ℕ) (ps : List PaperPosition)
    → any (has_id k) (update_positions t ps) ≡ any (has_id k) ps
any-update t k [] = refl
any-update t k (p ∷ ps) = ground (arith, any-update t k ps)

pub finds-any :
    (f : PaperPosition → Bool) (ps : List PaperPosition) {p : PaperPosition}
    → find_first f ps ≡ some p
    → any (has_id p.position_id) ps ≡ true
finds-any f [] h = cc
finds-any f (q ∷ ps) {p} h = elim (Bool-cases (f q)) [
  | inl here ↦
      let same : some q ≡ some p = rw here at h in let e : q ≡ p = cc in rw e (ground arith)
  | inr later ↦ ground (arith, finds-any f ps (rw later at h))
]

OnlyRow-other :
    (p : PaperPosition) (ps : List PaperPosition)
    → any (has_id p.position_id) ps ≡ false
    → OnlyRow p ps
OnlyRow-other p [] h = tt
OnlyRow-other p (q ∷ ps) h = (λ e. absurd (ground arith), OnlyRow-other p ps (ground arith))

pub found-OnlyRow :
    (f : PaperPosition → Bool) (ps : List PaperPosition) (es : List PositionEvent)
    {p : PaperPosition}
    → AllAgree ps es
    → find_first f ps ≡ some p
    → OnlyRow p ps
found-OnlyRow f [] es h found = tt
found-OnlyRow f (q ∷ ps) es {p} h found = elim (Bool-cases (f q)) [
  | inl here ↦
      let same : some q ≡ some p = rw here at found in
      let e : q ≡ p = cc in (λ _. e, OnlyRow-other p ps (rw e at h.1))
  | inr later ↦
      let found' = rw later at found in
      (
        λ e. absurd (let there = finds-any f ps found' in let fresh = rw e at h.1 in cc),
        found-OnlyRow f ps es h.2 found',
      )
]

AllAgree-found :
    (f : PaperPosition → Bool) (ps : List PaperPosition) (es : List PositionEvent)
    {p : PaperPosition}
    → AllAgree ps es
    → find_first f ps ≡ some p
    → Agrees p es
AllAgree-found f [] es h found = absurd (cc)
AllAgree-found f (q ∷ ps) es {p} h found = elim (Bool-cases (f q)) [
  | inl here ↦ let same : some q ≡ some p = rw here at found in let e : q ≡ p = cc in rw e at h.0
  | inr later ↦ AllAgree-found f ps es h.2 (rw later at found)
]

-- A transition that grows its row by the event's quantity.
pub record Grows (t : PaperPositionBuyTransition) (p : PaperPosition) (e : PositionEvent)
    : Type 0 where
  pub open_row : is_open p.status ≡ true
  pub position_id : t.position_id ≡ p.position_id
  pub named : e.position_id ≡ p.position_id
  pub grown : t.quantity ≡ p.quantity + e.quantity_delta
  pub expected_version : t.expected_version ≡ p.version

update-meets :
    (t : PaperPositionBuyTransition) (p : PaperPosition) (e : PositionEvent)
    → Grows t p e
    → buy_meets t p ≡ true
update-meets t p e g =
    rw (g.open_row, g.position_id, g.expected_version, ==_refl p.position_id, ==_refl p.version)
      refl

update-other :
    (t : PaperPositionBuyTransition) (p : PaperPosition)
    → p.position_id ≢ t.position_id
    → buy_meets t p ≡ false
update-other t p ne = ground arith

pub AllAgree-updated :
    (t : PaperPositionBuyTransition) (p : PaperPosition) (ps : List PaperPosition)
    (es : List PositionEvent) (e : PositionEvent)
    → AllAgree ps es
    → OnlyRow p ps
    → Grows t p e
    → AllAgree (update_positions t ps) (es ++ e ∷ [])
AllAgree-updated t p [] es e h only g = tt
AllAgree-updated t p (q ∷ ps) es e h only g = elim (ℕ_discrete q.position_id p.position_id) [
  | yes same ↦
      let row = only.0 same in
      let meets : buy_meets t q ≡ true = rw row (update-meets t p e g) in
      rw meets (
        Agrees-grown q (after_buy t q) es e h.0 refl (g.named ∙ sym same)
            (g.grown ∙ ap (λ x. x.quantity + e.quantity_delta) (sym row))
            (ap (λ n. n + 1) g.expected_version ∙ ap (λ x. x.version + 1) (sym row)),
        any-update t q.position_id ps ∙ h.1,
        AllAgree-updated t p ps es e h.2 only.1 g,
      )
  | no other ↦
      let meets : buy_meets t q ≡ false = update-other t q (λ k. other (k ∙ g.position_id)) in
      rw meets (
        Agrees-other q es e (λ k. other (sym k ∙ g.named)) h.0,
        any-update t q.position_id ps ∙ h.1,
        AllAgree-updated t p ps es e h.2 only.1 g,
      )
]
