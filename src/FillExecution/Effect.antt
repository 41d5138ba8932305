-- ===== src/FillExecution/Effect.antt =====
-- What execute_next (application/services/paper_fill.py) prepares, by the state of the order.
use auto_trading_v.Prelude.{
  ℕ, ◌+◌, ◌-◌, ◌/◌, ◌≤◌, ◌≡◌, refl, inl, inr, some, List, [], ◌∷◌, length, get_elem?, arith, ok,
  >>=-eq-ok, map_error-eq-ok, ◌==◌, if◌then◌else◌,
}
use auto_trading_v.PaperOrders.{PaperOrderStatus, accepted, partially_filled}
use auto_trading_v.PaperFills.{
  FillQuantityPlan, split_plan, chunks, plan, PaperFill, validate_fill_history,
  paper_fill_execution_key,
}
use auto_trading_v.PaperFills.Plan.{plan-eq-ok}
use auto_trading_v.PaperFills.History.{IsFillable, validate_fill_history_iff}
use auto_trading_v.Prelude.{map_error, or_raise}
use auto_trading_v.FillExecution.{
  invalid, history, acceptance_missing, expected, Chain, Step, complete_step, prepare_step,
  next_fill, next_transition,
}
use auto_trading_v.PaperFills.Contracts.{new_paper_fill_cases, new_transition_cases}
use auto_trading_v.Prelude.{Option-cases, Result-cases}

-- The records that `complete_step` makes out of a planned quantity.
abbrev first_chunk : ℕ → ℕ
first_chunk requested = if requested == 1 then 1 else requested / 2

pub record IsStep (c : Chain) (number cumulative quantity now fill_id : ℕ) (step : Step)
    : Type 0 where
  pub sequence : step.fill.fill_sequence ≡ number + 1
  pub quantity_planned : step.fill.quantity ≡ quantity
  pub identity : step.fill.fill_id ≡ fill_id
  pub key : paper_fill_execution_key c.order.order_id (number + 1) ≡ ok step.fill.execution_key
  pub order : step.fill.order_id ≡ c.order.order_id
  pub transition :
      step.transition ≡ next_transition c (cumulative + quantity == c.intent.requested_quantity) now
  pub clock : c.order.updated_at ≤ now

complete_step-IsStep :
    (c : Chain) (p : FillQuantityPlan) (number cumulative now fill_id : ℕ) {step : Step}
    → complete_step c p number cumulative now fill_id ≡ ok step
    → (quantity : ℕ) × (get_elem? p.quantities number ≡ some quantity)
      × IsStep c number cumulative quantity now fill_id step
unfolding complete_step
complete_step-IsStep c p number cumulative now fill_id h =
    elim (Option-cases (get_elem? p.quantities number)) [
      | inl missing ↦ absurd (ground arith)
      | inr (quantity, planned) ↦
          elim (Result-cases (paper_fill_execution_key c.order.order_id (number + 1))) [
            | inr (e, failed) ↦ absurd (ground arith)
            | inl (key, made) ↦
                let final = cumulative + quantity == c.intent.requested_quantity in
                (
                  quantity,
                  planned,
                  ground (
                    arith,
                    new_paper_fill_cases (next_fill c fill_id key (number + 1) quantity now),
                    new_transition_cases (next_transition c final now),
                  ),
                )
          ]
    ]

-- The two situations in which an order takes a fill: its first, and its second and last.
pub data FillCase (c : Chain) (fills : List PaperFill) (fill_id now : ℕ) (step : Step)
    : Type 0 where
  first :
      c.order.status ≡ accepted
      → fills ≡ []
      → IsStep c 0 0 (first_chunk c.intent.requested_quantity) now fill_id step
      → FillCase c fills fill_id now step
  second :
      (f : PaperFill)
      → c.order.status ≡ partially_filled
      → fills ≡ f ∷ []
      → 2 ≤ c.intent.requested_quantity
      → f.quantity ≡ c.intent.requested_quantity / 2
      → f.fill_sequence ≡ 1
      → IsStep c 1 f.quantity
          (c.intent.requested_quantity - c.intent.requested_quantity / 2)
          now
          fill_id
          step
      → FillCase c fills fill_id now step

plan_has_chunk :
    (requested : ℕ) (p : FillQuantityPlan) → p ≡ split_plan requested → 1 ≤ length p.quantities
unfolding chunks
plan_has_chunk requested p e = ground arith

get-first_chunk :
    (requested : ℕ) {q : ℕ} → get_elem? (chunks requested) 0 ≡ some q → q ≡ first_chunk requested
unfolding chunks
get-first_chunk requested h = ground arith

get-last_chunk :
    (requested : ℕ) {q : ℕ}
    → get_elem? (chunks requested) 1 ≡ some q
    → q ≡ requested - requested / 2
unfolding chunks
get-last_chunk requested h = ground arith

get-half :
    (requested : ℕ) {q : ℕ}
    → 2 ≤ requested
    → get_elem? (chunks requested) 0 ≡ some q
    → q ≡ requested / 2
unfolding chunks
get-half requested two h = ground arith

module _ (c : Chain) {fills : List PaperFill} {now fill_id : ℕ} {step : Step} where
  status_cases :
      (accepted_at cumulative : ℕ) (status : PaperOrderStatus)
      → c.order.status ≡ status
      → IsFillable status
          (expected c accepted_at (split_plan c.intent.requested_quantity))
          fills
          cumulative
      → complete_step c
          (split_plan c.intent.requested_quantity)
          (length fills)
          cumulative
          now
          fill_id
        ≡ ok step
      → FillCase c fills fill_id now step
  status_cases accepted_at cumulative accepted is (none_yet, zero_sum) h =
      let made =
        complete_step-IsStep c (split_plan c.intent.requested_quantity) 0 0 now fill_id
          (rw (none_yet, zero_sum) at h) in
      first is none_yet (rw (get-first_chunk c.intent.requested_quantity made.1) at made.2)
  status_cases accepted_at cumulative partially_filled is (f, one, facts, sum, two, lt) h =
      let made =
        complete_step-IsStep c (split_plan c.intent.requested_quantity) 1 f.quantity now fill_id
          (rw (one, sum) at h) in
      second f is one two (get-half c.intent.requested_quantity two facts.planned)
        facts.fill_sequence (rw (get-last_chunk c.intent.requested_quantity made.1) at made.2)
  status_cases accepted_at cumulative _ is fillable h = absurd fillable

pub prepare_step-FillCase :
    (c : Chain) (fills : List PaperFill) (now fill_id : ℕ) {step : Step}
    → prepare_step c fills now fill_id ≡ ok step
    → FillCase c fills fill_id now step
unfolding prepare_step
prepare_step-FillCase c fills now fill_id h =
    let (p, planned, h1) = >>=-eq-ok (map_error invalid (plan c.intent.requested_quantity)) _ h in
    let (accepted_at, at, h2) = >>=-eq-ok (or_raise c.order.accepted_at acceptance_missing) _ h1 in
    let (cumulative, checked, h3) =
      >>=-eq-ok
        (map_error history (validate_fill_history c.order.status (expected c accepted_at p) fills))
        _ h2 in
    let whole = plan-eq-ok c.intent.requested_quantity p (map_error-eq-ok invalid _ planned) in
    status_cases c accepted_at cumulative c.order.status refl
      (rw whole.0 at (
        (validate_fill_history_iff c.order.status (expected c accepted_at p) fills cumulative
            (plan_has_chunk c.intent.requested_quantity p whole.0)).0
          (map_error-eq-ok history _ checked)))
      (rw whole.0 at h3)
