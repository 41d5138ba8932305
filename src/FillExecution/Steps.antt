-- ===== src/FillExecution/Steps.antt =====
-- The next fill of an order in execute_next (application/services/paper_fill.py): its plan, key and constructors.
use auto_trading_v.Prelude.{
  ℕ, ◌+◌, ◌≤◌, ◌<◌, ◌≡◌, refl, ◌⊎◌, inl, inr, true, false, Bool, some, none, List, length,
  get_elem?, arith, ok, ◌==◌, ==_refl, if◌then◌else◌, leb, ltb,
}
use auto_trading_v.PaperOrders.{PaperOrderStatus, accepted, partially_filled, filled}
use auto_trading_v.PaperFills.{
  FillQuantityPlan, split_plan, chunks, PaperFill, key_text, validate_fill_history,
  validate_fill_transition, new_paper_fill, new_transition,
}
use auto_trading_v.PaperFills.Keys.{key-ok, key-code_ok}
use auto_trading_v.PaperFills.Plan.{plan_total, chunks-IsSplit}
use auto_trading_v.PaperFills.History.{IsFillable, validate_fill_history_iff}
use auto_trading_v.FillExecution.{
  Chain, Step, expected, next_fill, next_transition, complete_step, prepare_step,
}

new_fill-ok :
    (c : Chain) (fill_id number quantity now : ℕ)
    → number ≤ 1
    → 1 ≤ quantity
    → new_paper_fill
        (next_fill c fill_id (key_text c.order.order_id (number + 1)) (number + 1) quantity now)
      ≡ ok (next_fill c fill_id (key_text c.order.order_id (number + 1)) (number + 1) quantity now)
unfolding new_paper_fill
new_fill-ok c fill_id number quantity now few one =
    rw
      (
        key-code_ok c.order.order_id number few,
        not_zero (number + 1) (omega arith),
        not_zero quantity one,
      )
      refl
  where
    not_zero : (n : ℕ) → 1 ≤ n → (n == 0) ≡ false
    not_zero n h = ground arith

-- Before the last fill an order is accepted or partially filled, and a partially filled one is
-- filled next.
abbrev CanMove : PaperOrderStatus → Bool → Type 0
CanMove status final = (status ≡ accepted) ⊎ (status ≡ partially_filled) × (final ≡ true)

transition-allowed :
    (status : PaperOrderStatus) (final : Bool) (now : ℕ)
    → CanMove status final
    → validate_fill_transition status
        (if final then filled else partially_filled)
        (if final then some now else none)
        now
      ≡ ok tt
unfolding validate_fill_transition
transition-allowed status true now (inl is) = rw (is, ==_refl now) refl
transition-allowed status false now (inl is) = rw is refl
transition-allowed status true now (inr (is, _)) = rw (is, ==_refl now) refl
transition-allowed status false now (inr (is, last)) = absurd (cc last)

new_transition-ok :
    (c : Chain) (final : Bool) (now : ℕ)
    → 1 ≤ c.order.version
    → CanMove c.order.status final
    → new_transition (next_transition c final now) ≡ ok (next_transition c final now)
unfolding new_transition
new_transition-ok c final now one can =
    rw (not_zero c.order.version one, transition-allowed c.order.status final now can) refl
  where
    not_zero : (n : ℕ) → 1 ≤ n → (n == 0) ≡ false
    not_zero n h = ground arith

-- The records of the next fill.
abbrev pub step_of : Chain → ℕ → ℕ → ℕ → ℕ → ℕ → Step
step_of c number cumulative quantity now fill_id = record {
  fill = next_fill c fill_id (key_text c.order.order_id (number + 1)) (number + 1) quantity now;
  transition = next_transition c (cumulative + quantity == c.intent.requested_quantity) now;
}

complete_step-ok :
    (c : Chain) (p : FillQuantityPlan) (number cumulative quantity now fill_id : ℕ)
    → number ≤ 1
    → number < length p.quantities
    → get_elem? p.quantities number ≡ some quantity
    → 1 ≤ quantity
    → c.order.updated_at ≤ now
    → 1 ≤ c.order.version
    → CanMove c.order.status (cumulative + quantity == c.intent.requested_quantity)
    → complete_step c p number cumulative now fill_id
      ≡ ok (step_of c number cumulative quantity now fill_id)
unfolding complete_step
complete_step-ok c p number cumulative quantity now fill_id few left there one in_time version can =
    rw
      (
        more (length p.quantities) number left,
        no_earlier now c.order.updated_at in_time,
        there,
        key-ok c.order.order_id number few,
        new_fill-ok c fill_id number quantity now few one,
        new_transition-ok c (cumulative + quantity == c.intent.requested_quantity) now version can,
      )
      refl
  where
    more : (a b : ℕ) → b < a → leb a b ≡ false
    more a b h = ground arith

    no_earlier : (a b : ℕ) → b ≤ a → ltb a b ≡ false
    no_earlier a b h = ground arith

-- The quantity that comes next in the plan.
record Next (requested number total quantity : ℕ) (status : PaperOrderStatus) : Type 0 where
  few : number ≤ 1
  left : number < length (chunks requested)
  planned : get_elem? (chunks requested) number ≡ some quantity
  positive : 1 ≤ quantity
  can : CanMove status (total + quantity == requested)

first-Next : (requested : ℕ) → 1 ≤ requested → (quantity : ℕ) × Next requested 0 0 quantity accepted
first-Next requested one = elim (chunks-IsSplit requested one) [
  | inl (is, quantities) ↦ (
    1,
    record {
      few = omega arith;
      left = rw quantities (omega arith);
      planned = rw quantities refl;
      positive = omega arith;
      can = inl refl;
    },
  )
  | inr (first, second, quantities, positive, _, _, _) ↦ (
    first,
    record {
      few = omega arith;
      left = rw quantities (omega arith);
      planned = rw quantities refl;
      positive = positive;
      can = inl refl;
    },
  )
]

second-Next :
    (requested f : ℕ)
    → 2 ≤ requested
    → get_elem? (chunks requested) 0 ≡ some f
    → (quantity : ℕ) × Next requested 1 f quantity partially_filled
second-Next requested f two planned = elim (chunks-IsSplit requested (omega arith)) [
  | inl (is, quantities) ↦ absurd (omega arith)
  | inr (first, second, quantities, positive, order, close, sum) ↦
      let same : first ≡ f = (let k = rw quantities at planned in cc) in
      (
        second,
        record {
          few = omega arith;
          left = rw quantities (omega arith);
          planned = rw quantities refl;
          positive = omega arith;
          can = inr (refl, rw (← same, sum) (==_refl requested));
        },
      )
]

history-Next :
    (c : Chain) (accepted_at : ℕ) (fills : List PaperFill) (total : ℕ) (status : PaperOrderStatus)
    → 1 ≤ c.intent.requested_quantity
    → IsFillable status
        (expected c accepted_at (split_plan c.intent.requested_quantity))
        fills
        total
    → (quantity : ℕ) × Next c.intent.requested_quantity (length fills) total quantity status
history-Next c accepted_at fills total accepted one (none_yet, zero_sum) =
    rw (none_yet, zero_sum) (first-Next c.intent.requested_quantity one)
history-Next c accepted_at fills total partially_filled one (f, alone, facts, sum, two, lt) =
    rw (alone, sum) (second-Next c.intent.requested_quantity f.quantity two facts.planned)
history-Next c accepted_at fills total _ one h = absurd h

chunks_positive : (requested : ℕ) → 1 ≤ requested → 1 ≤ length (chunks requested)
unfolding chunks
chunks_positive requested h = ground arith

prepared :
    (c : Chain) (fills : List PaperFill) (now fill_id accepted_at total quantity : ℕ)
    → 1 ≤ c.intent.requested_quantity
    → 1 ≤ c.order.version
    → c.order.updated_at ≤ now
    → c.order.accepted_at ≡ some accepted_at
    → validate_fill_history c.order.status
        (expected c accepted_at (split_plan c.intent.requested_quantity))
        fills
      ≡ ok total
    → Next c.intent.requested_quantity (length fills) total quantity c.order.status
    → prepare_step c fills now fill_id ≡ ok (step_of c (length fills) total quantity now fill_id)
unfolding prepare_step
prepared c fills now fill_id accepted_at total quantity one version in_time acceptance valid n =
    rw ((plan_total c.intent.requested_quantity one).0, acceptance, valid)
      (complete_step-ok c (split_plan c.intent.requested_quantity) (length fills) total quantity now
        fill_id n.few n.left n.planned n.positive in_time version n.can)

pub prepare_step-ok :
    (c : Chain) (fills : List PaperFill) (now fill_id accepted_at total : ℕ)
    → 1 ≤ c.intent.requested_quantity
    → 1 ≤ c.order.version
    → c.order.updated_at ≤ now
    → c.order.accepted_at ≡ some accepted_at
    → validate_fill_history c.order.status
        (expected c accepted_at (split_plan c.intent.requested_quantity))
        fills
      ≡ ok total
    → (quantity : ℕ) × (prepare_step c fills now fill_id
        ≡ ok (step_of c (length fills) total quantity now fill_id))
prepare_step-ok c fills now fill_id accepted_at total one version in_time acceptance valid =
    let e = expected c accepted_at (split_plan c.intent.requested_quantity) in
    let fillable =
      (validate_fill_history_iff c.order.status e fills total
          (chunks_positive c.intent.requested_quantity one)).0
        valid in
    let (quantity, n) = history-Next c accepted_at fills total c.order.status one fillable in
    (
      quantity,
      prepared c fills now fill_id accepted_at total quantity one version in_time acceptance valid
          n,
    )
