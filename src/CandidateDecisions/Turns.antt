-- ===== src/CandidateDecisions/Turns.antt =====
-- One turn of the loop of decide_all (application/services/strategy_decision.py): the engine's decision,
-- the contract and the insert.
use auto_trading_v.Prelude.{
  ℕ, ◌≡◌, ap, sym, Bool, true, false, not, ◌&&◌, ◌||◌, List, [], ◌∷◌, ◌++◌, any, arith, codes_eq,
  ◌==◌, ok, raise_if, map_error, >>=-eq-ok, ok-injective, none,
}
use auto_trading_v.Strategies.{
  StrategyDefinition, StrategySignal, StrategyDecisionResult, decide, action_of,
  extract_blocking_reason_codes, normalize_reason_codes, new_decision, signal_mismatch, version_ok,
  strategy_version_invalid, evaluation_version_blank, reasons_of,
}
use auto_trading_v.Filters.{is_blank}
use auto_trading_v.PaperOrders.{code_ok, is_space}
use auto_trading_v.TradeIntents.Service.{is_of}
use auto_trading_v.CandidateDecisions.{
  CandidateDecision, is_candidate_action, action_not_allowed, decision_key_invalid,
  decision_version_invalid, reason_codes_invalid, new_candidate_decision, same_decision,
  add_decision, Selected,
}

-- A row of a candidate and a strategy.
abbrev pub is_row : ℕ → StrategyDefinition → CandidateDecision → Bool
is_row candidate_id d r = r.decision.candidate_id == candidate_id && is_of d r.decision

-- The row that a strategy's turn stores.
pub record Decided (candidate_id : ℕ) (x : Selected) (r : CandidateDecision) : Type 0 where
  pub candidate : r.decision.candidate_id ≡ candidate_id
  pub strategy : r.decision.strategy_id ≡ x.0.strategy_id
  pub version : r.decision.strategy_version ≡ x.0.strategy_version
  pub action : r.decision.action ≡ action_of x.0.observation_only x.2.passed
  pub source : r.filter_evaluation_id ≡ x.1.filter_evaluation_id

pub add_decision-eq-ok :
    (table : List CandidateDecision) (r : CandidateDecision) {after : List CandidateDecision}
    → add_decision table r ≡ ok after
    → (any (same_decision r) table ≡ false) × (after ≡ table ++ r ∷ [])
unfolding add_decision
add_decision-eq-ok table r h =
    let (u, free, h1) = >>=-eq-ok (raise_if (any (same_decision r) table) _) _ h in
    (ground (arith, free), sym (ok-injective h1))

-- What a decision of the engine says.
pub decide-eq-ok :
    (signal : StrategySignal) (d : StrategyDefinition) {r : StrategyDecisionResult}
    → decide signal d ≡ ok r
    → (r.strategy_id ≡ d.strategy_id)
      × (r.strategy_version ≡ d.strategy_version)
      × (r.action ≡ action_of d.observation_only signal.passed)
unfolding decide new_decision
decide-eq-ok signal d {r} h =
    let (u1, matched, h1) =
      >>=-eq-ok
        (raise_if
          (not (signal.filter_set_id == d.source_filter_set_id)
            || not (codes_eq signal.evaluation_version d.source_evaluation_version))
          signal_mismatch)
        _ h in
    let (blocking, extracted, h2) =
      >>=-eq-ok (extract_blocking_reason_codes (not signal.passed) signal.blocking_reason_codes) _
        h1 in
    let (u2, versioned, h3) =
      >>=-eq-ok (raise_if (not (version_ok d.strategy_version)) strategy_version_invalid) _ h2 in
    let (u3, named, h4) =
      >>=-eq-ok (raise_if (is_blank d.source_evaluation_version) evaluation_version_blank) _ h3 in
    let (reasons, normalized, h5) =
      >>=-eq-ok
        (normalize_reason_codes true none false
          (reasons_of d.observation_only signal.passed blocking))
        _ h4 in
    let made = ok-injective h5 in
    (
      ap (λ x. x.strategy_id) (sym made),
      ap (λ x. x.strategy_version) (sym made),
      ap (λ x. x.action) (sym made),
    )

pub new_candidate_decision-eq-ok :
    (row : CandidateDecision) {r : CandidateDecision}
    → new_candidate_decision row ≡ ok r
    → (r.decision ≡ row.decision) × (r.filter_evaluation_id ≡ row.filter_evaluation_id)
unfolding new_candidate_decision
new_candidate_decision-eq-ok row {r} h =
    let (u1, allowed, h1) =
      >>=-eq-ok (raise_if (not (is_candidate_action row.decision.action)) action_not_allowed) _ h in
    let (u2, keyed, h2) =
      >>=-eq-ok
        (raise_if (not (code_ok 160 row.decision_key) || any is_space row.decision_key)
          decision_key_invalid)
        _ h1 in
    let (u3, versioned, h3) =
      >>=-eq-ok (raise_if (not (code_ok 64 row.decision.strategy_version)) decision_version_invalid)
        _ h2 in
    let (reasons, normalized, h4) =
      >>=-eq-ok
        (map_error reason_codes_invalid (normalize_reason_codes true none false row.reason_codes)) _
        h3 in
    let made = ok-injective h4 in
    (ap (λ x. x.decision) (sym made), ap (λ x. x.filter_evaluation_id) (sym made))
