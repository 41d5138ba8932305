-- ===== src/Submission/Broker.antt =====
-- The adapter adapters/brokers/internal_paper.py.
use auto_trading_v.PaperOrders.Codes.{length-uuid_text, last-uuid_text, digit_visible}
use auto_trading_v.Prelude.{
  ℕ, ◌%◌, ◌≡◌, ◌↔◌, refl, ◌⊎◌, inl, inr, true, some, none, ◌++◌, arith, ok, codes_eq, codes_eq_refl,
  codes_eq→eq, Bool-cases, is_none, if◌then◌else◌,
}
use auto_trading_v.Text.{Text, codes, digit, uuid_text}
use auto_trading_v.Primitives.{usd}
use auto_trading_v.PaperOrders.{is_stripped, code_ok, last?, internal_paper_broker_code}
use auto_trading_v.FillExecution.{is_buy, is_market}
use auto_trading_v.UnitOfWork.{TradeSide, TradeOrderType, buy, market}
use auto_trading_v.Submission.{
  PaperOrderSubmissionRequest, PaperOrderSubmissionResult, accepted_outcome, rejected_outcome,
  new_result, internal_paper_broker_reference, rejection_of, internal_submit, unsupported_currency,
  unsupported_side, unsupported_order_type,
}

reference-code_ok : (u : ℕ) → code_ok 160 (internal_paper_broker_reference u) ≡ true
unfolding internal_paper_broker_reference code_ok is_stripped
reference-code_ok u =
    rw (last-reference, length-uuid_text u, digit_visible (u % 16) (omega arith)) refl
  where
    last-reference : last? (codes "internal-paper:v1:" ++ uuid_text u) ≡ some (digit (u % 16))
    last-reference = last-uuid_text u b':'

-- What the broker answers.
abbrev pub answer : PaperOrderSubmissionRequest → PaperOrderSubmissionResult
answer r = record {
  outcome = if is_none (rejection_of r) then accepted_outcome else rejected_outcome;
  broker_code = internal_paper_broker_code;
  broker_order_ref = some (internal_paper_broker_reference r.client_order_id);
  processed_at = r.submitted_at;
  rejection_code = rejection_of r;
}

-- The requests that the broker accepts.
abbrev pub IsSupported : PaperOrderSubmissionRequest → Type 0
IsSupported r = (r.currency ≡ usd) × (r.side ≡ buy) × (r.order_type ≡ market)

is_buy→eq : (s : TradeSide) → is_buy s ≡ true → s ≡ buy
is_buy→eq s h = ground arith

is_market→eq : (t : TradeOrderType) → is_market t ≡ true → t ≡ market
is_market→eq t h = ground arith

codes_ok :
    (code_ok 64 unsupported_currency ≡ true)
    × (code_ok 64 unsupported_side ≡ true)
    × (code_ok 64 unsupported_order_type ≡ true)
unfolding code_ok is_stripped
codes_ok = (refl, refl, refl)

rejection_cases :
    (r : PaperOrderSubmissionRequest)
    → (rejection_of r ≡ none) × IsSupported r
      ⊎ ((code : Text) × (rejection_of r ≡ some code) × (code_ok 64 code ≡ true) × ¬ IsSupported r)
unfolding rejection_of
rejection_cases r = elim (Bool-cases (codes_eq r.currency usd)) [
  | inr other ↦ inr (
    unsupported_currency,
    rw other refl,
    codes_ok.0,
    λ is. let e = rw is.0 at other in let k = codes_eq_refl usd in cc,
  )
  | inl same ↦ elim (Bool-cases (is_buy r.side)) [
    | inr sells ↦
        inr (
          unsupported_side,
          rw (same, sells) refl,
          codes_ok.1,
          λ is. let e = rw is.1 at sells in cc,
        )
    | inl buys ↦ elim (Bool-cases (is_market r.order_type)) [
      | inr limited ↦ inr (
        unsupported_order_type,
        rw (same, buys, limited) refl,
        codes_ok.2,
        λ is. let e = rw is.2 at limited in cc,
      )
      | inl at_market ↦ inl (
        rw (same, buys, at_market) refl,
        (
          codes_eq→eq r.currency usd same,
          is_buy→eq r.side buys,
          is_market→eq r.order_type at_market,
        ),
      )
    ]
  ]
]

broker_code_ok : code_ok 32 internal_paper_broker_code ≡ true
unfolding code_ok is_stripped
broker_code_ok = refl

answer-valid : (r : PaperOrderSubmissionRequest) → new_result (answer r) ≡ ok (answer r)
unfolding new_result
answer-valid r = elim (rejection_cases r) [
  | inl (supported, _) ↦ rw (supported, reference-code_ok r.client_order_id, broker_code_ok) refl
  | inr (code, refused, valid, _) ↦
      rw (refused, reference-code_ok r.client_order_id, broker_code_ok, valid) refl
]

-- The internal paper broker answers every request with a result that its contract accepts, and the
-- outcome is accepted exactly for a USD buy order at the market.
pub internal_submit_total :
    (r : PaperOrderSubmissionRequest)
    → (internal_submit r ≡ ok (some (answer r)))
      × (((answer r).outcome ≡ accepted_outcome) ↔ IsSupported r)
unfolding internal_submit
internal_submit_total r = (rw (answer-valid r) refl, outcome_iff)
  where
    outcome_iff : ((answer r).outcome ≡ accepted_outcome) ↔ IsSupported r
    outcome_iff = elim (rejection_cases r) [
      | inl (supported, is) ↦ rw supported (λ _. is, λ _. refl)
      | inr (code, refused, valid, not_is) ↦
          rw refused (λ k. absurd (cc k), λ is. absurd (not_is is))
    ]
