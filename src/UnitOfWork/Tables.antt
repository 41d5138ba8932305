-- ===== src/UnitOfWork/Tables.antt =====
-- What the reads of a table find after a write to it.
use auto_trading_v.Prelude.{select-append}
use auto_trading_v.Prelude.{
  ℕ, ◌<◌, ◌≡◌, ◌≢◌, refl, true, false, Bool-cases, inl, inr, some, List, [], ◌∷◌, ◌++◌, select,
  find_first, any, leb, ◌==◌, if◌then◌else◌, arith, ok,
}
use mathlib.Core.List.{append-nil}
use mathlib.Core.Option
use auto_trading_v.PaperOrders.{PaperOrder}
use auto_trading_v.PaperOrders.Shape.{status_eq_refl}
use auto_trading_v.PaperFills.{PaperFill, PaperOrderFillTransition}
use auto_trading_v.UnitOfWork.{
  insert_by_sequence, sort_by_sequence, fills_by_order, add_fill, same_fill, transition_meets,
  after_transition, update_orders, transition_after_fill,
}

-- Every fill of a list stands before the given place in its order.
abbrev pub AllBefore : ℕ → List PaperFill → Type 0
AllBefore n [] = Unit
AllBefore n (f ∷ fs) = (f.fill_sequence < n) × AllBefore n fs

AllBefore-insert :
    (n : ℕ) (f : PaperFill) (fs : List PaperFill)
    → AllBefore n (insert_by_sequence f fs)
    → (f.fill_sequence < n) × AllBefore n fs
unfolding insert_by_sequence
AllBefore-insert n f [] h = h
AllBefore-insert n f (g ∷ gs) h = elim (Bool-cases (leb f.fill_sequence g.fill_sequence)) [
  | inl le ↦ rw le at h
  | inr gt ↦
      let k : AllBefore n (g ∷ insert_by_sequence f gs) = rw gt at h in
      let rest = AllBefore-insert n f gs k.1 in (rest.0, (k.0, rest.1))
]

insert-append :
    (f g : PaperFill) (fs : List PaperFill)
    → f.fill_sequence < g.fill_sequence
    → insert_by_sequence f (fs ++ g ∷ []) ≡ insert_by_sequence f fs ++ g ∷ []
unfolding insert_by_sequence
insert-append f g [] h = ground arith
insert-append f g (x ∷ xs) h = ground (arith, insert-append f g xs h)

sort-append :
    (g : PaperFill) (fs : List PaperFill)
    → AllBefore g.fill_sequence (sort_by_sequence fs)
    → sort_by_sequence (fs ++ g ∷ []) ≡ sort_by_sequence fs ++ g ∷ []
unfolding sort_by_sequence
sort-append g [] h = refl
sort-append g (f ∷ fs) h =
    let before = AllBefore-insert g.fill_sequence f (sort_by_sequence fs) h in
    rw (sort-append g fs before.1) (insert-append f g (sort_by_sequence fs) before.0)

-- A fill that stands behind the others of its order is read last.
pub fills_by_order-append :
    (fills : List PaperFill) (k : ℕ) (g : PaperFill)
    → g.order_id ≡ k
    → AllBefore g.fill_sequence (fills_by_order fills k)
    → fills_by_order (fills ++ g ∷ []) k ≡ fills_by_order fills k ++ g ∷ []
unfolding fills_by_order
fills_by_order-append fills k g e h =
    rw (select-append (λ f. f.order_id == k) fills (g ∷ []))
      (rw (own_row g k e) (sort-append g (select (λ f. f.order_id == k) fills) h))
  where
    own_row :
        (g : PaperFill) (k : ℕ) → g.order_id ≡ k → select (λ f. f.order_id == k) (g ∷ []) ≡ g ∷ []
    own_row g k e = ground arith

pub fills_by_order-other :
    (fills : List PaperFill) (k : ℕ) (g : PaperFill)
    → g.order_id ≢ k
    → fills_by_order (fills ++ g ∷ []) k ≡ fills_by_order fills k
unfolding fills_by_order
fills_by_order-other fills k g ne =
    rw (select-append (λ f. f.order_id == k) fills (g ∷ [])) (rw (other_row g k ne) (rw append-nil))
  where
    other_row :
        (g : PaperFill) (k : ℕ) → g.order_id ≢ k → select (λ f. f.order_id == k) (g ∷ []) ≡ []
    other_row g k ne = ground arith

-- The insert adds one row at the end, and only a row with new keys.
pub add_fill-eq-ok :
    (fills : List PaperFill) (f : PaperFill) {after : List PaperFill}
    → add_fill fills f ≡ ok after
    → (after ≡ fills ++ f ∷ []) × (any (same_fill f) fills ≡ false)
unfolding add_fill
add_fill-eq-ok fills f h = ground arith

module _ (t : PaperOrderFillTransition) (o : PaperOrder) where
  -- The row that the UPDATE of a transition's order meets.
  abbrev pub Meets : Type 0
  Meets =
      (o.order_id ≡ t.order_id) × (o.status ≡ t.expected_status) × (o.version ≡ t.expected_version)

  meets : Meets → transition_meets t o ≡ true
  meets h = ground (arith, status_eq_refl t.expected_status)

abbrev updated : PaperOrderFillTransition → PaperOrder → PaperOrder
updated t o = if transition_meets t o then after_transition t o else o

find-update :
    (t : PaperOrderFillTransition) (k : ℕ) (orders : List PaperOrder)
    → find_first (λ o. o.order_id == k) (update_orders t orders)
      ≡ Option.map (updated t) (find_first (λ o. o.order_id == k) orders)
find-update t k [] = refl
find-update t k (o ∷ orders) = ground (arith, find-update t k orders)

-- The order that an UPDATE meets is found in its new state.
pub find-update_met :
    (t : PaperOrderFillTransition) (k : ℕ) (orders : List PaperOrder) (o : PaperOrder)
    → find_first (λ r. r.order_id == k) orders ≡ some o
    → Meets t o
    → find_first (λ r. r.order_id == k) (update_orders t orders) ≡ some (after_transition t o)
find-update_met t k orders o found h = ground (arith, find-update t k orders, meets t o h)

-- A successful UPDATE returns the one row that it changed.
pub transition_after_fill-eq-ok :
    (orders : List PaperOrder) (t : PaperOrderFillTransition) (o : PaperOrder)
    {result : PaperOrder × List PaperOrder}
    → find_first (λ r. r.order_id == t.order_id) orders ≡ some o
    → Meets t o
    → transition_after_fill orders t ≡ ok result
    → (result ≡ (after_transition t o, update_orders t orders))
unfolding transition_after_fill
transition_after_fill-eq-ok orders t o found h e =
    ground (arith, find-update t t.order_id orders, meets t o h)

-- Other orders are left as they are.
pub update_orders-other :
    (t : PaperOrderFillTransition) (k : ℕ) (orders : List PaperOrder)
    → k ≢ t.order_id
    → find_first (λ o. o.order_id == k) (update_orders t orders)
      ≡ find_first (λ o. o.order_id == k) orders
update_orders-other t k [] ne = refl
update_orders-other t k (o ∷ orders) ne = ground (arith, update_orders-other t k orders)
