-- ===== src/CandidateDecisions/Sources.antt =====
-- decide_all (application/services/strategy_decision.py): the evaluations that its rows come from, and
-- the reads of create_all (application/services/trade_intent.py) afterwards.
use auto_trading_v.Prelude.{
  ℕ, ◌≡◌, refl, ap, sym, ◌∙◌, inl, inr, not, ◌||◌, List, [], ◌∷◌, ◌++◌, map, select, arith, ◌==◌,
  Result, ok, raise_if, or_raise, map_error, map_error-eq-ok, >>=-eq-ok, ok-injective, Result-cases,
  subst,
}
use auto_trading_v.UnitOfWork.{Store, get_candidate}
use auto_trading_v.Strategies.{
  StrategyDefinition, StrategySignal, new_signal, action_of, extract_blocking_reason_codes,
  evaluation_version_blank, score_out_of_range,
}
use auto_trading_v.Filters.{is_blank}
use auto_trading_v.Decimals.{of_ℕ, lt_dec}
use auto_trading_v.TradeIntents.Service.{eligible_decisions, decisions_of}
use auto_trading_v.CandidateDecisions.{
  FilterEvaluation, CandidateDecision, DecisionServiceError, candidate_not_found,
  invalid_evaluation, candidate_mismatch, invalid_score, invalid_contract, is_source, only_source,
  signal_from, Selected, select_signal, select_signals, decide_body, decide_all,
}
use auto_trading_v.CandidateDecisions.Rows.{AllDecided, store_decisions-Single}
use auto_trading_v.CandidateDecisions.Eligible.{decisions, enters, eligible-Single}

-- The one evaluation that a strategy's decision is made of.
pub record Made (candidate_id : ℕ) (evaluations : List FilterEvaluation) (d : StrategyDefinition)
    (r : CandidateDecision) : Type 0 where
  pub source : FilterEvaluation
  pub only : select (is_source d) evaluations ≡ source ∷ []
  pub candidate : r.decision.candidate_id ≡ candidate_id
  pub strategy : r.decision.strategy_id ≡ d.strategy_id
  pub version : r.decision.strategy_version ≡ d.strategy_version
  pub evaluation : r.filter_evaluation_id ≡ source.filter_evaluation_id
  pub action : r.decision.action ≡ action_of d.observation_only source.passed

module _ (candidate_id : ℕ) (evaluations : List FilterEvaluation) where
  abbrev pub AllMade : List StrategyDefinition → List CandidateDecision → Type 0
  AllMade [] [] = Unit
  AllMade [] (_ ∷ _) = ⊥
  AllMade (_ ∷ _) [] = ⊥
  AllMade (d ∷ ds) (r ∷ rs) = Made candidate_id evaluations d r × AllMade ds rs

  abbrev Sourced : Selected → Type 0
  Sourced x = (select (is_source x.0) evaluations ≡ x.1 ∷ []) × (x.2.passed ≡ x.1.passed)

  abbrev AllSourced : List Selected → Type 0
  AllSourced [] = Unit
  AllSourced (x ∷ xs) = Sourced x × AllSourced xs

  only_source-eq-ok :
      (d : StrategyDefinition) (es : List FilterEvaluation) {e : FilterEvaluation}
      → only_source d es ≡ ok e
      → es ≡ e ∷ []
  only_source-eq-ok d [] h = cc
  only_source-eq-ok d (x ∷ []) h = cc
  only_source-eq-ok d (x ∷ y ∷ es) h = cc

  new_signal-eq-ok : (t : StrategySignal) {u : StrategySignal} → new_signal t ≡ ok u → u ≡ t
  unfolding new_signal
  new_signal-eq-ok t h =
      let (u1, named, h1) =
        >>=-eq-ok (raise_if (is_blank t.evaluation_version) evaluation_version_blank) _ h in
      let (u2, within, h2) =
        >>=-eq-ok
          (raise_if (lt_dec t.score (of_ℕ 0) || lt_dec (of_ℕ 100) t.score) score_out_of_range) _
          h1 in
      let (blocking, extracted, h3) =
        >>=-eq-ok (extract_blocking_reason_codes (not t.passed) t.blocking_reason_codes) _ h2 in
      sym (ok-injective h3)

  select_signal-Sourced :
      (d : StrategyDefinition) {x : FilterEvaluation × StrategySignal}
      → select_signal candidate_id evaluations d ≡ ok x
      → Sourced (d, x.0, x.1)
  unfolding select_signal
  select_signal-Sourced d {x} h =
      let (e, only, h1) = >>=-eq-ok (only_source d (select (is_source d) evaluations)) _ h in
      let (u, mine, h2) =
        >>=-eq-ok
          (raise_if (not (e.candidate_id == candidate_id))
            (invalid_evaluation d candidate_mismatch))
          _ h1 in
      let (score, scored, h3) =
        >>=-eq-ok (or_raise e.score (invalid_evaluation d invalid_score)) _ h2 in
      let (signal, valid, h4) =
        >>=-eq-ok
          (map_error (λ _. invalid_evaluation d invalid_contract)
            (new_signal (signal_from e score)))
          _ h3 in
      let same = new_signal-eq-ok (signal_from e score) (map_error-eq-ok _ _ valid) in
      subst (λ x. Sourced (d, x.0, x.1)) (ok-injective h4)
        (only_source-eq-ok d _ only, ap (λ t. t.passed) same)

  select_signals-AllSourced :
      (ds : List StrategyDefinition) {xs : List Selected}
      → select_signals candidate_id evaluations ds ≡ ok xs
      → (map (λ x. x.0) xs ≡ ds) × AllSourced xs
  unfolding select_signals
  select_signals-AllSourced [] h =
      subst (λ xs. (map (λ x. x.0) xs ≡ []) × AllSourced xs) (ok-injective h) (refl, tt)
  select_signals-AllSourced (d ∷ ds) h =
      let (x, one, h1) = >>=-eq-ok (select_signal candidate_id evaluations d) _ h in
      let (xs, later, h2) = >>=-eq-ok (select_signals candidate_id evaluations ds) _ h1 in
      let (same, all) = select_signals-AllSourced ds later in
      subst (λ xs. (map (λ x. x.0) xs ≡ d ∷ ds) × AllSourced xs) (ok-injective h2)
        (ap (λ l. d ∷ l) same, (select_signal-Sourced d one, all))

  Sourced-Made :
      (xs : List Selected) (rows : List CandidateDecision)
      → AllSourced xs
      → AllDecided candidate_id xs rows
      → AllMade (map (λ x. x.0) xs) rows
  Sourced-Made [] [] s a = tt
  Sourced-Made [] (r ∷ rs) s a = a
  Sourced-Made (x ∷ xs) [] s a = a
  Sourced-Made (x ∷ xs) (r ∷ rs) s a = (
    record {
      source = x.1;
      only = s.0.0;
      candidate = a.0.candidate;
      strategy = a.0.strategy;
      version = a.0.version;
      evaluation = a.0.source;
      action = a.0.action ∙ ap (action_of x.0.observation_only) s.0.1;
    },
    Sourced-Made xs rs s.1 a.1,
  )

abbrev pub evaluations_of : List FilterEvaluation → ℕ → List FilterEvaluation
evaluations_of evaluations candidate_id = select (λ e. e.candidate_id == candidate_id) evaluations

pairs :
    {a b t u : List CandidateDecision}
    → ◌≡◌ {A = Result DecisionServiceError (List CandidateDecision) × List CandidateDecision}
        (ok a, t)
        (ok b, u)
    → ◌≡◌ {A = List CandidateDecision × List CandidateDecision} (a, t) (b, u)
pairs h = cc h

body-eligible_decisions :
    (new_id : ℕ → ℕ) (decided_at candidate_id : ℕ) (strategies : List StrategyDefinition)
    (s : Store) (evaluations : List FilterEvaluation) (table : List CandidateDecision)
    {p : List CandidateDecision × List CandidateDecision}
    → decide_body new_id decided_at candidate_id strategies s evaluations table ≡ ok p
    → (p.1 ≡ table ++ p.0)
      × AllMade candidate_id (evaluations_of evaluations candidate_id) strategies p.0
      × (eligible_decisions candidate_id
            (decisions_of (record s { strategy_decisions = decisions p.1 }) candidate_id)
            strategies
          ≡ ok (enters strategies p.0))
unfolding decide_body
body-eligible_decisions new_id decided_at candidate_id strategies s evaluations table {p} h =
    let (candidate, known, h1) =
      >>=-eq-ok (or_raise (get_candidate s candidate_id) candidate_not_found) _ h in
    let (xs, selected, h2) =
      >>=-eq-ok (select_signals candidate_id (evaluations_of evaluations candidate_id) strategies) _
        h1 in
    let (same, sourced) =
      select_signals-AllSourced candidate_id (evaluations_of evaluations candidate_id) strategies
        selected in
    let (decided, appended, single) =
      store_decisions-Single new_id decided_at candidate_id 0 xs table h2 in
    subst
      (λ ds.
        (p.1 ≡ table ++ p.0)
        × AllMade candidate_id (evaluations_of evaluations candidate_id) ds p.0
        × (eligible_decisions candidate_id
              (decisions_of (record s { strategy_decisions = decisions p.1 }) candidate_id) ds
            ≡ ok (enters ds p.0)))
      same
      (
        appended,
        Sourced-Made candidate_id (evaluations_of evaluations candidate_id) xs p.0 sourced decided,
        eligible-Single candidate_id xs p.0 p.1 decided single,
      )

-- When decide_all returns, its rows stand at the end of the table, one for each strategy in the
-- strategies' order: of the candidate, the strategy and its version, made of the one evaluation of
-- the strategy's filter set and version, with the action that the engine takes for that evaluation.
-- And the check that create_all makes of the decisions then passes for the same strategies: it
-- finds exactly one valid decision for each, and the eligible ones are the rows whose action is to
-- enter.
pub decide_all-eligible_decisions :
    (new_id : ℕ → ℕ) (decided_at candidate_id : ℕ) (strategies : List StrategyDefinition)
    (s : Store) (evaluations : List FilterEvaluation) (table : List CandidateDecision)
    {rows after : List CandidateDecision}
    → decide_all new_id decided_at candidate_id strategies s evaluations table ≡ (ok rows, after)
    → (after ≡ table ++ rows)
      × AllMade candidate_id (evaluations_of evaluations candidate_id) strategies rows
      × (eligible_decisions candidate_id
            (decisions_of (record s { strategy_decisions = decisions after }) candidate_id)
            strategies
          ≡ ok (enters strategies rows))
unfolding decide_all
decide_all-eligible_decisions new_id decided_at candidate_id strategies s evaluations table {rows}
      {after} h =
    elim (Result-cases
      (decide_body new_id decided_at candidate_id strategies s evaluations table)) [
        | inr (e, failed) ↦ absurd (ground (arith, h, failed))
        | inl (p, done) ↦
            let same : ◌≡◌
                {A = Result DecisionServiceError (List CandidateDecision) × List CandidateDecision}
                (ok p.0, p.1) (ok rows, after) =
              rw done at h in
            subst
              (λ q.
                (q.1 ≡ table ++ q.0)
                × AllMade candidate_id (evaluations_of evaluations candidate_id) strategies q.0
                × (eligible_decisions candidate_id
                      (decisions_of (record s { strategy_decisions = decisions q.1 }) candidate_id)
                      strategies
                    ≡ ok (enters strategies q.0)))
              (pairs same)
              (body-eligible_decisions new_id decided_at candidate_id strategies s evaluations table
                done)
      ]
