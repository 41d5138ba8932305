-- ===== src/PaperFills/Transitions.antt =====
-- The transitions of an order in the contract of a fill (application/contracts/paper_fills.py).
use auto_trading_v.Prelude.{ℕ, ◌≡◌, ◌⊎◌, Option, none, some, arith, ok, ◌↔◌}
use auto_trading_v.PaperOrders.{PaperOrderStatus, accepted, partially_filled, filled}
use auto_trading_v.PaperFills.{validate_fill_transition}

-- A transition leads to a partial fill that stays open, or to a filled order that is closed then.
abbrev pub IsForward : PaperOrderStatus → PaperOrderStatus → Option ℕ → ℕ → Type 0
IsForward old new closed_at updated_at =
    (old ≡ accepted) × (new ≡ partially_filled) × (closed_at ≡ none)
    ⊎ ((old ≡ accepted) ⊎ (old ≡ partially_filled)) × (new ≡ filled) × (closed_at ≡ some updated_at)

transition-IsForward :
    (old new : PaperOrderStatus) (closed_at : Option ℕ) (updated_at : ℕ)
    → validate_fill_transition old new closed_at updated_at ≡ ok tt
    → IsForward old new closed_at updated_at
unfolding validate_fill_transition
transition-IsForward old new closed_at updated_at h = ground arith

IsForward-transition :
    (old new : PaperOrderStatus) (closed_at : Option ℕ) (updated_at : ℕ)
    → IsForward old new closed_at updated_at
    → validate_fill_transition old new closed_at updated_at ≡ ok tt
unfolding validate_fill_transition
IsForward-transition old new closed_at updated_at h = ground arith

-- validate_fill_transition accepts exactly the transition from accepted to partially filled without
-- a closing time, and those from accepted or partially filled to filled whose closing time is the
-- time of the update.
pub validate_fill_transition_iff :
    (old new : PaperOrderStatus) (closed_at : Option ℕ) (updated_at : ℕ)
    → (validate_fill_transition old new closed_at updated_at ≡ ok tt)
      ↔ IsForward old new closed_at updated_at
validate_fill_transition_iff old new closed_at updated_at = (
  transition-IsForward old new closed_at updated_at,
  IsForward-transition old new closed_at updated_at,
)
