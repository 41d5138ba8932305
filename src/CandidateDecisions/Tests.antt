-- ===== src/CandidateDecisions/Tests.antt =====
-- A candidate whose filter set passed, under a strategy that trades and one that observes.
use auto_trading_v.Prelude.{ℕ, ◌+◌, ◌≡◌, refl, true, some, List, [], ◌∷◌, ◌++◌, ok, codes_eq}
use auto_trading_v.Decimals.{of_ℕ, le_dec}
use auto_trading_v.Text.{Text, codes, uuid_text}
use auto_trading_v.UnitOfWork.{StrategyAction, enter_long, observe}
use auto_trading_v.Strategies.{is_reason_code, extract_blocking_reason_codes}
use auto_trading_v.TradeIntents.Service.{eligible_decisions, decisions_of}
use auto_trading_v.TradeIntents.Tests.{strategies, store_with}
use auto_trading_v.CandidateDecisions.{FilterEvaluation, CandidateDecision, decide_all}
use auto_trading_v.CandidateDecisions.Eligible.{decisions, enters}
use auto_trading_v.CandidateDecisions.Sources.{
  AllMade, evaluations_of, decide_all-eligible_decisions,
}

abbrev evaluations : List FilterEvaluation
evaluations =
    record {
      filter_evaluation_id = 20;
      candidate_id = 5;
      filter_set_id = 9;
      evaluation_version = codes "v1";
      passed = true;
      score = some (of_ℕ 80);
      blocking_reason_codes = some [];
    }
    ∷ []

abbrev decided : ℕ → ℕ → StrategyAction → List Text → CandidateDecision
decided id strategy action reasons = record {
  decision = record {
    decision_id = id;
    candidate_id = 5;
    strategy_id = strategy;
    strategy_version = codes "v1";
    action = action;
  };
  decision_key =
      codes "candidate:"
      ++ (uuid_text 5 ++ (codes "|strategy:" ++ (uuid_text strategy ++ codes "|version:v1")));
  filter_evaluation_id = 20;
  reason_codes = reasons;
  decided_at = 99;
}

abbrev rows : List CandidateDecision
rows =
    decided 30 6 enter_long (codes "FILTER_SET_PASSED" ∷ codes "ENTRY_ALLOWED" ∷ [])
    ∷ decided 31 11 observe (codes "OBSERVATION_ONLY" ∷ [])
    ∷ []

decides : decide_all (λ i. i + 30) 99 5 strategies (store_with []) evaluations [] ≡ (ok rows, rows)
unfolding decide_all codes_eq le_dec is_reason_code extract_blocking_reason_codes
decides = refl

decide_all-eligible_decisions_example :
    (rows ≡ [] ++ rows)
    × AllMade 5 (evaluations_of evaluations 5) strategies rows
    × (eligible_decisions 5
          (decisions_of (record (store_with []) { strategy_decisions = decisions rows }) 5)
          strategies
        ≡ ok (enters strategies rows))
decide_all-eligible_decisions_example =
    decide_all-eligible_decisions (λ i. i + 30) 99 5 strategies (store_with []) evaluations []
      decides
