-- ===== src/PaperFills/Contracts.antt =====
-- The constructors of application/contracts/paper_fills.py.
use auto_trading_v.Prelude.{◌≡◌, ◌⊎◌, inl, inr, ok, raise, Result-cases, arith}
use auto_trading_v.Prelude.{Bool-cases, ◌==◌}
use auto_trading_v.PaperFills.{
  version_not_positive, PaperFillError, PaperFill, new_paper_fill, PaperOrderFillTransition,
  new_transition, validate_fill_transition,
}

pub new_paper_fill_cases :
    (fill : PaperFill)
    → (new_paper_fill fill ≡ ok fill) ⊎ ((e : PaperFillError) × (new_paper_fill fill ≡ raise e))
unfolding new_paper_fill
new_paper_fill_cases fill = elim (Result-cases (new_paper_fill fill)) [
  | inl (f, made) ↦ inl (ground arith)
  | inr (e, raised) ↦ inr (e, raised)
]

pub new_transition_cases :
    (t : PaperOrderFillTransition)
    → (new_transition t ≡ ok t) ⊎ ((e : PaperFillError) × (new_transition t ≡ raise e))
unfolding new_transition
new_transition_cases t =
    elim (Result-cases
      (validate_fill_transition t.expected_status t.new_status t.closed_at t.updated_at)) [
        | inl (u, accepted_shape) ↦ version_cases u accepted_shape
        | inr (e, raised) ↦ elim (Bool-cases (t.expected_version == 0)) [
          | inl zero_version ↦ inr (version_not_positive, rw (zero_version))
          | inr positive ↦ inr (e, rw (positive, raised))
        ]
      ]
  where
    version_cases :
        (u : Unit {0})
        → validate_fill_transition t.expected_status t.new_status t.closed_at t.updated_at ≡ ok u
        → (new_transition t ≡ ok t) ⊎ ((e : PaperFillError) × (new_transition t ≡ raise e))
    version_cases u accepted_shape = elim (Bool-cases (t.expected_version == 0)) [
      | inl zero_version ↦ inr (version_not_positive, rw (zero_version))
      | inr positive ↦ inl (rw (positive, accepted_shape))
    ]
