-- ===== src/Filters/Passing.antt =====
-- The decision to pass of DeterministicFilterEngine.evaluate (domain/filtering/engine.py).
use auto_trading_v.Prelude.{
  ◌≡◌, ◌↔◌, ◌⊎◌, refl, inl, inr, true, false, ◌&&◌, ◌||◌, not, Bool, Bool-cases, List, [], ◌∷◌,
  arith, ok, >>=-eq-ok,
}
use auto_trading_v.Decimals.{Decimal, of_ℕ, le_dec, lt_dec}
use auto_trading_v.Filters.{
  is_blank, is_negative, FilterMode, observation, is_observation, pass, FilterInput,
  FilterSetDefinition, FilterCheckResult, FilterEvaluationResult, evaluate_checks, evaluate,
  evaluation_of, new_evaluation, hard_failed, hard_not_evaluable, passed_weights, sum_from,
  check_precision, blocking_codes,
}

-- Every hard check passed.
abbrev pub AllHardPass : List FilterCheckResult → Type 0
AllHardPass [] = Unit
AllHardPass (c ∷ cs) = (c.hard ≡ true → c.outcome ≡ pass) × AllHardPass cs

hard-AllHardPass :
    (cs : List FilterCheckResult)
    → hard_failed cs ≡ false
    → hard_not_evaluable cs ≡ false
    → AllHardPass cs
hard-AllHardPass [] h k = tt
hard-AllHardPass (c ∷ cs) h k =
    (λ hard. ground arith, hard-AllHardPass cs (ground arith) (ground arith))

AllHardPass-failed : (cs : List FilterCheckResult) → AllHardPass cs → hard_failed cs ≡ false
AllHardPass-failed [] h = refl
AllHardPass-failed (c ∷ cs) h = elim (Bool-cases c.hard) [
  | inl is ↦ rw (h.0 is) (ground (arith, AllHardPass-failed cs h.1))
  | inr is ↦ rw is (AllHardPass-failed cs h.1)
]

AllHardPass-unknown : (cs : List FilterCheckResult) → AllHardPass cs → hard_not_evaluable cs ≡ false
AllHardPass-unknown [] h = refl
AllHardPass-unknown (c ∷ cs) h = elim (Bool-cases c.hard) [
  | inl is ↦ rw (h.0 is) (ground (arith, AllHardPass-unknown cs h.1))
  | inr is ↦ rw is (AllHardPass-unknown cs h.1)
]

-- What a filter set asks for.
abbrev pub Passes : FilterMode → Decimal → List FilterCheckResult → Decimal → Type 0
Passes mode minimum checks score =
    (mode ≡ observation) ⊎ AllHardPass checks × (le_dec minimum score ≡ true)

is_observation→eq : (m : FilterMode) → is_observation m ≡ true → m ≡ observation
is_observation→eq m h = ground arith

passed-Passes :
    (d : FilterSetDefinition) (checks : List FilterCheckResult) (score : Decimal)
    → (evaluation_of d checks score).passed ≡ true
    → Passes d.mode d.minimum_score checks score
passed-Passes d checks score h = elim (Bool-cases (is_observation d.mode)) [
  | inl is ↦ inl (is_observation→eq d.mode is)
  | inr is ↦
      let k = rw is at h in
      inr (hard-AllHardPass checks (ground arith) (ground arith), ground arith)
]

Passes-passed :
    (d : FilterSetDefinition) (checks : List FilterCheckResult) (score : Decimal)
    → Passes d.mode d.minimum_score checks score
    → (evaluation_of d checks score).passed ≡ true
Passes-passed d checks score (inl is) = rw is refl
Passes-passed d checks score (inr (hard, enough)) = elim (Bool-cases (is_observation d.mode)) [
  | inl is ↦ rw is refl
  | inr is ↦ rw (is, AllHardPass-failed checks hard, AllHardPass-unknown checks hard, enough) refl
]

blocking_cases :
    (failed unknown below : Bool)
    → (blocking_codes failed unknown below ≡ [])
      ↔ ((not failed && (not unknown && not below)) ≡ true)
blocking_cases failed unknown below = ground arith

blocking_iff :
    (d : FilterSetDefinition) (checks : List FilterCheckResult) (score : Decimal)
    → ((evaluation_of d checks score).blocking_reason_codes ≡ [])
      ↔ ((evaluation_of d checks score).passed ≡ true)
blocking_iff d checks score = elim (Bool-cases (is_observation d.mode)) [
  | inl is ↦ rw is (λ _. refl, λ _. refl)
  | inr is ↦ rw is (
      blocking_cases (hard_failed checks) (hard_not_evaluable checks)
        (lt_dec score d.minimum_score))
]

pub evaluate-eq-ok :
    (i : FilterInput) (d : FilterSetDefinition) {r : FilterEvaluationResult}
    → evaluate i d ≡ ok r
    → (checks : List FilterCheckResult) × (evaluate_checks i d ≡ ok checks)
      × (r ≡ evaluation_of d checks (sum_from check_precision (of_ℕ 0) (passed_weights checks)))
      × ((is_negative r.score || lt_dec (of_ℕ 100) r.score) ≡ false)
      × (is_blank r.evaluation_version ≡ false)
unfolding evaluate new_evaluation
evaluate-eq-ok i d h =
    let (checks, found, h1) = >>=-eq-ok (evaluate_checks i d) _ h in
    let score = sum_from check_precision (of_ℕ 0) (passed_weights checks) in
    let (same, within, named) = kept (evaluation_of d checks score) h1 in
    (checks, found, same, within, named)
  where
    kept :
        (e : FilterEvaluationResult) {r : FilterEvaluationResult}
        → new_evaluation e ≡ ok r
        → (r ≡ e)
          × ((is_negative r.score || lt_dec (of_ℕ 100) r.score) ≡ false)
          × (is_blank r.evaluation_version ≡ false)
    kept e h = (ground arith, ground arith, ground arith)

-- An evaluation that the engine returned is passed exactly when the mode is observation, or every
-- hard check passed and the score reaches the minimum, and its blocking codes are empty exactly
-- when it is passed.
pub evaluate-Passes_iff :
    (i : FilterInput) (d : FilterSetDefinition) (r : FilterEvaluationResult)
    → evaluate i d ≡ ok r
    → ((r.passed ≡ true) ↔ Passes d.mode d.minimum_score r.checks r.score)
      × ((r.blocking_reason_codes ≡ []) ↔ (r.passed ≡ true))
evaluate-Passes_iff i d r h =
    let (checks, found, same, within, named) = evaluate-eq-ok i d h in
    let score = sum_from check_precision (of_ℕ 0) (passed_weights checks) in
    rw same
      ((passed-Passes d checks score, Passes-passed d checks score), blocking_iff d checks score)
