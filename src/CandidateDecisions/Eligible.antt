-- ===== src/CandidateDecisions/Eligible.antt =====
-- The decisions of a candidate as create_all (application/services/trade_intent.py) selects them from
-- the rows of decide_all.
use auto_trading_v.Prelude.{
  ℕ, ◌≡◌, refl, ap, inl, inr, Bool, Bool-cases, List, [], ◌∷◌, map, select, ==_refl, ◌==◌,
  if◌then◌else◌, ok,
}
use auto_trading_v.UnitOfWork.{StrategyDecision}
use auto_trading_v.Strategies.{StrategyDefinition, action_of}
use auto_trading_v.TradeIntents.Service.{
  is_of, is_enter, validate_action, decision_for, eligible_decisions,
}
use auto_trading_v.CandidateDecisions.{CandidateDecision, Selected}
use auto_trading_v.CandidateDecisions.Turns.{is_row, Decided}
use auto_trading_v.CandidateDecisions.Rows.{AllDecided, AllSingle}

-- The rows that the later services read.
abbrev pub decisions : List CandidateDecision → List StrategyDecision
decisions rows = map (λ r. r.decision) rows

-- The strategies with a decision to enter, with that decision.
abbrev pub enters :
    List StrategyDefinition → List CandidateDecision → List (StrategyDefinition × StrategyDecision)
enters [] rows = []
enters (d ∷ ds) [] = []
enters (d ∷ ds) (r ∷ rs) =
    let rest = enters ds rs in if is_enter r.decision.action then (d, r.decision) ∷ rest else rest

module _ (candidate_id : ℕ) where
  pub select-decisions :
      (d : StrategyDefinition) (table : List CandidateDecision)
      → select (is_of d) (select (λ x. x.candidate_id == candidate_id) (decisions table))
        ≡ decisions (select (is_row candidate_id d) table)
  select-decisions d [] = refl
  select-decisions d (r ∷ rs) = elim (Bool-cases (r.decision.candidate_id == candidate_id)) [
    | inl mine ↦ elim (Bool-cases (is_of d r.decision)) [
      | inl here ↦ rw (mine, here) (ap (λ l. r.decision ∷ l) (select-decisions d rs))
      | inr other ↦ rw (mine, other) (select-decisions d rs)
    ]
    | inr foreign ↦ rw foreign (select-decisions d rs)
  ]

  pub action_of-valid :
      (d : StrategyDefinition) (passed : Bool)
      → validate_action d (action_of d.observation_only passed) ≡ ok tt
  unfolding validate_action
  action_of-valid d passed = elim (Bool-cases d.observation_only) [
    | inl only ↦ rw only refl
    | inr trades ↦ elim (Bool-cases passed) [
      | inl pass ↦ rw (trades, pass) refl
      | inr fail ↦ rw (trades, fail) refl
    ]
  ]

  pub decision_for-Decided :
      (x : Selected) (r : CandidateDecision) (table : List CandidateDecision)
      → Decided candidate_id x r
      → select (is_row candidate_id x.0) table ≡ r ∷ []
      → decision_for candidate_id
          (select (λ x. x.candidate_id == candidate_id) (decisions table))
          x.0
        ≡ ok r.decision
  unfolding decision_for
  decision_for-Decided x r table h single =
      rw
        (
          select-decisions x.0 table,
          single,
          h.candidate,
          ==_refl candidate_id,
          h.action,
          action_of-valid x.0 x.2.passed,
        )
        refl

  pub eligible-Single :
      (xs : List Selected) (rows table : List CandidateDecision)
      → AllDecided candidate_id xs rows
      → AllSingle candidate_id xs rows table
      → eligible_decisions candidate_id
          (select (λ x. x.candidate_id == candidate_id) (decisions table))
          (map (λ x. x.0) xs)
        ≡ ok (enters (map (λ x. x.0) xs) rows)
  unfolding eligible_decisions
  eligible-Single [] rows table a s = refl
  eligible-Single (x ∷ xs) [] table a s = absurd a
  eligible-Single (x ∷ xs) (r ∷ rs) table a s =
      rw (decision_for-Decided x r table a.0 s.0, eligible-Single xs rs table a.1 s.1) refl
