-- ===== src/Strategies/Decisions.antt =====
-- The engine of decisions on the filter engine's results.
use auto_trading_v.Prelude.{ap, ◌∙◌}
use auto_trading_v.Prelude.{
  ◌≡◌, ◌↔◌, refl, true, false, not, ◌&&◌, ◌||◌, Bool, all_bool, all_bool-at, none, some, List, [],
  ◌∷◌, arith, ok, if◌then◌else◌, codes_eq, codes_eq_refl, ==_refl, length,
}
use auto_trading_v.Text.{Text}
use auto_trading_v.Decimals.{of_ℕ, lt_dec}
use auto_trading_v.UnitOfWork.{enter_long}
use auto_trading_v.Filters.{
  is_blank, FilterInput, FilterSetDefinition, FilterEvaluationResult, evaluate, hard_failed,
  hard_not_evaluable, is_observation, blocking_codes, passed_weights, sum_from, check_precision,
}
use auto_trading_v.Filters.Passing.{Passes, evaluate-Passes_iff, evaluate-eq-ok}
use auto_trading_v.Strategies.{
  version_ok, is_reason_code, contains, is_empty, exceeds, normalize_reason_codes,
  extract_blocking_reason_codes, max_blocking_reason_codes, StrategyDefinition, StrategySignal,
  new_signal, StrategyDecisionResult, new_decision, action_of, reasons_of, decide,
}
use auto_trading_v.Strategies.Codes.{AreNew, AreNew-ok}

-- The signal that the service reads back from a stored evaluation.
abbrev pub signal_of : FilterEvaluationResult → StrategySignal
signal_of r = record {
  filter_set_id = r.filter_set_id;
  evaluation_version = r.evaluation_version;
  passed = r.passed;
  score = r.score;
  blocking_reason_codes = some r.blocking_reason_codes;
}

-- A test for `AreNew`.
unfoldable pub are_new : List Text → List Text → Bool
are_new seen [] = true
are_new seen (c ∷ cs) = is_reason_code c && (not (contains c seen) && are_new (c ∷ seen) cs)

pub are_new-AreNew : (seen cs : List Text) → are_new seen cs ≡ true → AreNew seen cs
unfolding are_new
are_new-AreNew seen [] h = tt
are_new-AreNew seen (c ∷ cs) h =
    (ground arith, ground arith, are_new-AreNew (c ∷ seen) cs (ground arith))

-- An evaluation's verdict and codes, by its mode and the three conditions.
abbrev verdict : Bool → Bool → Bool → Bool → Bool
verdict watching failed unknown below =
    if watching then true else not failed && (not unknown && not below)

abbrev blocked_by : Bool → Bool → Bool → Bool → List Text
blocked_by watching failed unknown below =
    if watching then [] else blocking_codes failed unknown below

-- The codes can be read back, and the reasons of a decision are codes without repetition.
abbrev readable : Bool → Bool → Bool → Bool → Bool → Bool
readable only watching failed unknown below =
    let passed = verdict watching failed unknown below in
    let blocking = blocked_by watching failed unknown below in
    are_new [] blocking
    && (not (exceeds (length blocking) (some max_blocking_reason_codes))
        && (not (not passed && is_empty blocking)
            && (are_new [] (reasons_of only passed blocking)
                && not (is_empty (reasons_of only passed blocking)))))

all_readable :
    all_bool
      (λ a. all_bool (λ b. all_bool (λ c. all_bool (λ d. all_bool (λ e. readable a b c d e)))))
    ≡ true
unfolding all_bool are_new is_reason_code codes_eq
all_readable = refl

readable_lem : (a b c d e : Bool) → readable a b c d e ≡ true
readable_lem a b c d e =
    all_bool-at (λ e. readable a b c d e) e
      (all_bool-at (λ d. all_bool (λ e. readable a b c d e)) d
        (all_bool-at (λ c. all_bool (λ d. all_bool (λ e. readable a b c d e))) c
          (all_bool-at (λ b. all_bool (λ c. all_bool (λ d. all_bool (λ e. readable a b c d e)))) b
            (all_bool-at
              (λ a.
                all_bool (λ b. all_bool (λ c. all_bool (λ d. all_bool (λ e. readable a b c d e)))))
              a all_readable))))

-- What the codes of an evaluation allow.
record Readable (only passed : Bool) (blocking : List Text) : Type 0 where
  extracted : extract_blocking_reason_codes (not passed) (some blocking) ≡ ok blocking
  explained :
      normalize_reason_codes true none false (reasons_of only passed blocking)
      ≡ ok (reasons_of only passed blocking)

evaluation-Readable :
    (only watching failed unknown below : Bool)
    → Readable only
        (verdict watching failed unknown below)
        (blocked_by watching failed unknown below)
unfolding extract_blocking_reason_codes
evaluation-Readable only watching failed unknown below =
    let passed = verdict watching failed unknown below in
    let blocking = blocked_by watching failed unknown below in
    let (a, b, c, d, e) = parts (readable_lem only watching failed unknown below) in
    record {
      extracted =
          AreNew-ok (not passed) (some max_blocking_reason_codes) true blocking
            (are_new-AreNew [] blocking a) b c;
      explained =
          AreNew-ok true none false (reasons_of only passed blocking)
            (are_new-AreNew [] (reasons_of only passed blocking) d) refl e;
    }
  where
    parts :
        {a b c d e : Bool}
        → (a && (not b && (not c && (d && not e)))) ≡ true
        → (a ≡ true) × (b ≡ false) × (c ≡ false) × (d ≡ true) × (e ≡ false)
    parts h = ground arith

-- The decision on an evaluation.
abbrev pub decided : StrategyDefinition → FilterEvaluationResult → StrategyDecisionResult
decided d r = record {
  strategy_id = d.strategy_id;
  strategy_version = d.strategy_version;
  source_filter_set_id = d.source_filter_set_id;
  source_evaluation_version = d.source_evaluation_version;
  action = action_of d.observation_only r.passed;
  reason_codes = reasons_of d.observation_only r.passed r.blocking_reason_codes;
}

decide-decided :
    (d : StrategyDefinition) (r : FilterEvaluationResult)
    → r.filter_set_id ≡ d.source_filter_set_id
    → r.evaluation_version ≡ d.source_evaluation_version
    → version_ok d.strategy_version ≡ true
    → is_blank r.evaluation_version ≡ false
    → Readable d.observation_only r.passed r.blocking_reason_codes
    → decide (signal_of r) d ≡ ok (decided d r)
unfolding decide new_decision
decide-decided d r id version strategy named x =
    rw
      (
        id,
        version,
        strategy,
        rw version at named,
        ==_refl d.source_filter_set_id,
        codes_eq_refl d.source_evaluation_version,
        x.extracted,
        x.explained,
      )
      refl

action_iff :
    (only passed : Bool) → (action_of only passed ≡ enter_long) ↔ (only ≡ false) × (passed ≡ true)
action_iff only passed = ground arith

evaluated-Readable :
    (i : FilterInput) (f : FilterSetDefinition) (only : Bool) {r : FilterEvaluationResult}
    → evaluate i f ≡ ok r
    → Readable only r.passed r.blocking_reason_codes
      × ((lt_dec r.score (of_ℕ 0) || lt_dec (of_ℕ 100) r.score) ≡ false)
evaluated-Readable i f only h =
    let (checks, found, same, within, _) = evaluate-eq-ok i f h in
    let score = sum_from check_precision (of_ℕ 0) (passed_weights checks) in
    (
      rw same (
          evaluation-Readable only (is_observation f.mode) (hard_failed checks)
            (hard_not_evaluable checks) (lt_dec score f.minimum_score)),
      within,
    )

-- For an evaluation that the filter engine returned and a strategy pinned to that filter set and
-- version, with a valid version of its own, the signal read back from it is valid, the decision
-- engine returns, and it decides to enter exactly when the strategy is not for observation only and
-- the filter set is passed: its mode is observation, or every hard check passed and the score
-- reaches the minimum.
pub evaluate-decide :
    (i : FilterInput) (f : FilterSetDefinition) (d : StrategyDefinition)
    (r : FilterEvaluationResult)
    → evaluate i f ≡ ok r
    → f.filter_set_id ≡ d.source_filter_set_id
    → f.evaluation_version ≡ d.source_evaluation_version
    → version_ok d.strategy_version ≡ true
    → (new_signal (signal_of r) ≡ ok (signal_of r))
      × (decide (signal_of r) d ≡ ok (decided d r))
      × (((decided d r).action ≡ enter_long)
          ↔ (d.observation_only ≡ false) × Passes f.mode f.minimum_score r.checks r.score)
unfolding new_signal
evaluate-decide i f d r h id version strategy =
    let (x, within) = evaluated-Readable i f d.observation_only h in
    let (checks, found, same, _, named) = evaluate-eq-ok i f h in
    let pass = (evaluate-Passes_iff i f r h).0 in
    let action = action_iff d.observation_only r.passed in
    (
      rw (named, within, x.extracted) refl,
      decide-decided d r (ap (λ e. e.filter_set_id) same ∙ id)
          (ap (λ e. e.evaluation_version) same ∙ version) strategy named x,
      (λ k. let (a, b) = action.0 k in (a, pass.0 b), λ k. action.1 (k.0, pass.1 k.1)),
    )
