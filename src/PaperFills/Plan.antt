-- ===== src/PaperFills/Plan.antt =====
-- The plan of InternalPaperSplitFillPolicy (domain/paper_fills/policy.py).
use auto_trading_v.Prelude.{
  ℕ, ◌+◌, ◌-◌, ◌≤◌, ◌≡◌, refl, ◌⊎◌, List, [], ◌∷◌, arith, ok, raise, inl, inr, ◌/◌,
}
use native.Mathlib.Decide.{ℕ_discrete}
use auto_trading_v.PaperFills.{FillQuantityPlan, chunks, split_plan, plan, requested_not_positive}

-- A quantity is one chunk, or two whose sizes differ by one at most.
abbrev pub IsSplit : ℕ → List ℕ → Type 0
IsSplit requested quantities =
    (requested ≡ 1) × (quantities ≡ 1 ∷ [])
    ⊎ ((first : ℕ) × (second : ℕ) × (quantities ≡ first ∷ second ∷ [])
        × (1 ≤ first)
        × (first ≤ second)
        × (second ≤ first + 1)
        × (first + second ≡ requested))

pub chunks-IsSplit : (requested : ℕ) → 1 ≤ requested → IsSplit requested (chunks requested)
unfolding chunks
chunks-IsSplit requested h = elim (ℕ_discrete requested 1) [
  | yes one ↦ inl (one, ground arith)
  | no more ↦ inr (
    requested / 2,
    requested - requested / 2,
    ground arith,
    omega arith,
    omega arith,
    omega arith,
    omega arith,
  )
]

plan-eq-split_plan : (requested : ℕ) → 1 ≤ requested → plan requested ≡ ok (split_plan requested)
unfolding plan chunks
plan-eq-split_plan requested h = ground arith

-- What the policy returned is the split of a positive quantity.
pub plan-eq-ok :
    (requested : ℕ) (p : FillQuantityPlan)
    → plan requested ≡ ok p
    → (p ≡ split_plan requested) × (1 ≤ requested)
unfolding plan chunks
plan-eq-ok requested p h = ground arith

-- For every positive quantity the split policy returns its plan, none of its checks failing, and
-- the plan is a single chunk of 1 where 1 is requested, or else two positive chunks that sum to the
-- request, the second equal to the first or one more.
pub plan_total :
    (requested : ℕ)
    → 1 ≤ requested
    → (plan requested ≡ ok (split_plan requested)) × IsSplit requested (chunks requested)
plan_total requested h = (plan-eq-split_plan requested h, chunks-IsSplit requested h)

plan_zero : plan 0 ≡ raise requested_not_positive
unfolding plan
plan_zero = refl
