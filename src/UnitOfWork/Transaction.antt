-- ===== src/UnitOfWork/Transaction.antt =====
-- How a `with` block ends.
use auto_trading_v.Prelude.{◌≡◌, ◌⊎◌, inl, inr, Result, ok, raise, Result-cases, arith}
use auto_trading_v.UnitOfWork.{Store, Ending, committed, uncommitted, with_unit_of_work}

pub committed-injective :
    {A : Type 0} {a b : A} {s t : Store}
    → ◌≡◌ {A = Ending A} (committed a s) (committed b t)
    → (a ≡ b) × (s ≡ t)
committed-injective h = ground arith

module _ {E A : Type 0} (s : Store) (body : Store → Result E (Ending A)) where
  -- A returned value was committed with the new tables, or nothing was written.
  pub with_unit_of_work-ok :
      {a : A} {s' : Store}
      → with_unit_of_work s body ≡ (ok a, s')
      → (body s ≡ ok (committed a s')) ⊎ (body s ≡ ok (uncommitted a)) × (s' ≡ s)
  unfolding with_unit_of_work
  with_unit_of_work-ok h = elim (Result-cases (body s)) [
    | inl (e, ended) ↦ by_ending e ended h
    | inr (e, raised) ↦ absurd (ground arith)
  ]
    where
      by_ending :
          (e : Ending A)
          → body s ≡ ok e
          → {a : A} {s' : Store} → with_unit_of_work s body ≡ (ok a, s')
          → (body s ≡ ok (committed a s')) ⊎ (body s ≡ ok (uncommitted a)) × (s' ≡ s)
      by_ending (committed b t) ended k = inl (ground arith)
      by_ending (uncommitted b) ended k = inr (ground arith, ground arith)

  -- A raise leaves the tables as they were.
  pub with_unit_of_work-raise :
      {e : E} {s' : Store}
      → with_unit_of_work s body ≡ (raise e, s')
      → (body s ≡ raise e) × (s' ≡ s)
  unfolding with_unit_of_work
  with_unit_of_work-raise h = elim (Result-cases (body s)) [
    | inl (r, ended) ↦ absurd (by_ending r ended h)
    | inr (r, raised) ↦ (ground arith, ground arith)
  ]
    where
      by_ending :
          (r : Ending A)
          → body s ≡ ok r
          → {e : E} {s' : Store} → with_unit_of_work s body ≡ (raise e, s')
          → ⊥
      by_ending (committed b t) ended k = ground arith
      by_ending (uncommitted b) ended k = ground arith
