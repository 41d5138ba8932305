-- ===== src/TradeIntents/Calls.antt =====
-- Calls of create_all (application/services/trade_intent.py).
use auto_trading_v.Prelude.{
  ℕ, ◌≡◌, refl, ap, ◌∙◌, ◌⊎◌, inl, inr, true, List, [], ◌∷◌, ◌++◌, any, arith, ok, raise, >>=-eq-ok,
  or_raise, or_raise-eq-ok, some, ==_refl,
}
use auto_trading_v.UnitOfWork.{
  StrategyDecision, MarketSnapshot, Candidate, TradeIntent, Store, Ending, committed,
  with_unit_of_work, get_candidate, get_snapshot,
}
use auto_trading_v.UnitOfWork.Transaction.{with_unit_of_work-ok, with_unit_of_work-raise}
use auto_trading_v.Strategies.{StrategyDefinition}
use auto_trading_v.TradeIntents.{
  FixedNotionalRiskPolicy, EntrySizingResult, plan_fixed_notional_quantity,
}
use auto_trading_v.TradeIntents.Service.{
  IntentServiceError, candidate_not_found, market_snapshot_not_found, intent_conflict,
  eligible_decisions, decisions_of, quantity_of_sizing, create_eligible, create_body, create_all,
}
use auto_trading_v.TradeIntents.Batch.{
  has_decision, Batch, Batch-nil, create_eligible-Batch, create_eligible-uncommitted,
  create_eligible-repeated,
}

-- The reads of a call.
pub record Loaded (strategies : List StrategyDefinition) (candidate_id : ℕ) (s : Store)
    : Type 0 where
  pub candidate : Candidate
  pub snapshot : MarketSnapshot
  pub eligible : List (StrategyDefinition × StrategyDecision)
  pub candidate_found : get_candidate s candidate_id ≡ some candidate
  pub snapshot_found : get_snapshot s candidate.market_snapshot_id ≡ some snapshot
  pub decided :
      eligible_decisions candidate_id (decisions_of s candidate_id) strategies ≡ ok eligible

-- What a call that returned has stored.
pub record Stored (policy : FixedNotionalRiskPolicy) (strategies : List StrategyDefinition)
    (candidate_id : ℕ) (s : Store) (rows : List TradeIntent) (s' : Store) : Type 0 where
  pub loaded : Loaded strategies candidate_id s
  pub quantity : ℕ
  pub sized :
      (rows ≡ [])
      ⊎ (sizing : EntrySizingResult) × (plan_fixed_notional_quantity loaded.snapshot.last_price
            policy
          ≡ ok sizing)
        × (quantity_of_sizing sizing ≡ ok quantity)
  pub batch : Batch quantity loaded.eligible rows s.trade_intents s'.trade_intents
  pub others_kept : s' ≡ record s { trade_intents = s'.trade_intents }

module _ (policy : FixedNotionalRiskPolicy) (strategies : List StrategyDefinition) where
  module _ (new_id : ℕ → ℕ) where
    body-Loaded :
        (now candidate_id : ℕ) (s : Store) {e : Ending (List TradeIntent)}
        → create_body policy new_id strategies now candidate_id s ≡ ok e
        → (l : Loaded strategies candidate_id s) × (create_eligible policy new_id now l.snapshot
              l.eligible s
            ≡ ok e)
    unfolding create_body
    body-Loaded now candidate_id s h =
        let (candidate, found, h1) =
          >>=-eq-ok (or_raise (get_candidate s candidate_id) candidate_not_found) _ h in
        let (snapshot, found', h2) =
          >>=-eq-ok
            (or_raise (get_snapshot s candidate.market_snapshot_id) market_snapshot_not_found) _
            h1 in
        let (eligible, decided, h3) =
          >>=-eq-ok (eligible_decisions candidate_id (decisions_of s candidate_id) strategies) _
            h2 in
        (
          record {
            candidate = candidate;
            snapshot = snapshot;
            eligible = eligible;
            candidate_found = or_raise-eq-ok _ _ found;
            snapshot_found = or_raise-eq-ok _ _ found';
            decided = decided;
          },
          h3,
        )

    -- When create_all returns, the candidate and its snapshot are stored and each strategy has one
    -- valid decision; the returned intents are one for each decision to enter, in the strategies'
    -- order, all of the quantity that the sizing of the snapshot's price approved; no intent of
    -- such a decision was there before; they stand at the end of the table, and the other tables
    -- are as they were.
    pub create_all-Stored :
        (now candidate_id : ℕ) (s : Store) {rows : List TradeIntent} {s' : Store}
        → create_all policy new_id strategies now candidate_id s ≡ (ok rows, s')
        → Stored policy strategies candidate_id s rows s'
    unfolding create_all
    create_all-Stored now candidate_id s {rows} {s'} h =
        elim (with_unit_of_work-ok s (create_body policy new_id strategies now candidate_id) h) [
          | inl wrote ↦
              let (l, made) = body-Loaded now candidate_id s wrote in
              let (sizing, quantity, planned, wanted, batch, kept) =
                create_eligible-Batch policy new_id now l.snapshot l.eligible s rows s' made in
              record {
                loaded = l;
                quantity = quantity;
                sized = inr (sizing, planned, wanted);
                batch = batch;
                others_kept = kept;
              }
          | inr (left, same) ↦
              let (l, made) = body-Loaded now candidate_id s left in
              let (no_es, no_rows) =
                create_eligible-uncommitted policy new_id now l.snapshot l.eligible s rows made in
              record {
                loaded = l;
                quantity = 0;
                sized = inl no_rows;
                batch = rw (no_es, no_rows, same) (Batch-nil 0 s.trade_intents);
                others_kept = rw same refl;
              }
        ]

    pub create_all-appended :
        (now candidate_id : ℕ) (s : Store) {rows : List TradeIntent} {s' : Store}
        → create_all policy new_id strategies now candidate_id s ≡ (ok rows, s')
        → s' ≡ record s { trade_intents = s.trade_intents ++ rows }
    create_all-appended now candidate_id s h =
        let c = create_all-Stored now candidate_id s h in
        c.others_kept ∙ ap (λ t. record s { trade_intents = t }) c.batch.appended

    pub create_all_atomic :
        (now candidate_id : ℕ) (s : Store) {e : IntentServiceError} {s' : Store}
        → create_all policy new_id strategies now candidate_id s ≡ (raise e, s')
        → s' ≡ s
    unfolding create_all
    create_all_atomic now candidate_id s h =
        (with_unit_of_work-raise s (create_body policy new_id strategies now candidate_id) h).1

  body-again :
      (other_id : ℕ → ℕ) (now candidate_id : ℕ) (s t : Store) (table : List TradeIntent)
      {e : IntentServiceError} (l : Loaded strategies candidate_id s)
      → t ≡ record s { trade_intents = table }
      → create_eligible policy other_id now l.snapshot l.eligible t ≡ raise e
      → create_body policy other_id strategies now candidate_id t ≡ raise e
  unfolding create_body
  body-again other_id now candidate_id s t table l kept h =
      rw kept (rw (l.candidate_found, l.snapshot_found, l.decided) (rw kept at h))

  any-stored :
      (k : ℕ) (intents : List TradeIntent) (t : TradeIntent) (rows : List TradeIntent)
      → t.decision_id ≡ k
      → any (has_decision k) (intents ++ t ∷ rows) ≡ true
  any-stored k [] t rows h = rw (h, ==_refl k) refl
  any-stored k (u ∷ us) t rows h = ground (arith, any-stored k us t rows h)

  eligible-again :
      (new_id other_id : ℕ → ℕ) (now now' quantity : ℕ) (snapshot : MarketSnapshot)
      (es : List (StrategyDefinition × StrategyDecision)) (s s' : Store) (t : TradeIntent)
      (rows : List TradeIntent)
      → create_eligible policy new_id now snapshot es s ≡ ok (committed (t ∷ rows) s')
      → Batch quantity es (t ∷ rows) s.trade_intents s'.trade_intents
      → (d : StrategyDefinition) × (create_eligible policy other_id now' snapshot es s'
          ≡ raise (intent_conflict d))
  eligible-again new_id other_id now now' quantity snapshot [] s s' t rows made b =
      absurd (cc b.decisions)
  eligible-again new_id other_id now now' quantity snapshot ((d, x) ∷ es) s s' t rows made b =
      let named : t.decision_id ≡ x.decision_id = cc b.decisions in
      (
        d,
        create_eligible-repeated policy new_id other_id now now' snapshot d x es s s' (t ∷ rows) s'
            made (rw b.appended (any-stored x.decision_id s.trade_intents t rows named)),
      )

  -- When create_all has returned at least one intent, a further call for the same candidate on the
  -- tables it left, with the same policy and strategies and whatever time and identifiers it is
  -- given, raises the conflict of a strategy and leaves the tables as they are.
  pub create_all_once :
      (new_id other_id : ℕ → ℕ) (now now' candidate_id : ℕ) (s : Store) {t : TradeIntent}
      {rows : List TradeIntent} {s' : Store}
      → create_all policy new_id strategies now candidate_id s ≡ (ok (t ∷ rows), s')
      → (d : StrategyDefinition) × (create_all policy other_id strategies now' candidate_id s'
          ≡ (raise (intent_conflict d), s'))
  unfolding create_all
  create_all_once new_id other_id now now' candidate_id s {t} {rows} {s'} h =
      elim (with_unit_of_work-ok s (create_body policy new_id strategies now candidate_id) h) [
        | inl wrote ↦
            let (l, made) = body-Loaded new_id now candidate_id s wrote in
            let (sizing, quantity, planned, wanted, batch, kept) =
              create_eligible-Batch policy new_id now l.snapshot l.eligible s (t ∷ rows) s' made in
            let (d, refused) =
              eligible-again new_id other_id now now' quantity l.snapshot l.eligible s s' t rows
                made batch in
            (
              d,
              rw
                  (
                    body-again other_id now' candidate_id s s' s'.trade_intents l kept refused,
                    with_unit_of_work,
                  )
                  refl,
            )
        | inr (left, same) ↦
            let (l, made) = body-Loaded new_id now candidate_id s left in
            let (no_es, no_rows) =
              create_eligible-uncommitted policy new_id now l.snapshot l.eligible s (t ∷ rows)
                made in
            absurd (cc no_rows)
      ]
