-- ===== src/TradeIntents/Batch.antt =====
-- The loop of create_all (application/services/trade_intent.py) over the decisions to enter.
use mathlib.Core.List.{append-nil, append_assoc}
use auto_trading_v.Prelude.{
  ℕ, suc, ◌≡◌, refl, ap, sym, ◌∙◌, true, false, Bool, List, [], ◌∷◌, ◌++◌, map, any, arith, ok,
  raise, >>=-eq-ok, ok-injective, map_error, map_error-eq-ok, ◌==◌,
}
use auto_trading_v.UnitOfWork.{
  StrategyDecision, MarketSnapshot, TradeIntent, Store, committed, uncommitted, PersistenceError,
}
use auto_trading_v.UnitOfWork.Transaction.{committed-injective}
use auto_trading_v.Strategies.{StrategyDefinition}
use auto_trading_v.TradeIntents.{
  FixedNotionalRiskPolicy, EntrySizingResult, plan_fixed_notional_quantity,
  trade_intent_idempotency_key, new_trade_intent, add_intent, same_intent,
}
use auto_trading_v.TradeIntents.Service.{
  intent_conflict, intent_invalid, quantity_of_sizing, intent_of, store_intent, store_intents,
  create_eligible,
}

abbrev pub has_decision : ℕ → TradeIntent → Bool
has_decision k t = k == t.decision_id

add_intent-eq-ok :
    (intents : List TradeIntent) (t : TradeIntent) {after : List TradeIntent}
    → add_intent intents t ≡ ok after
    → (after ≡ intents ++ t ∷ []) × (any (same_intent t) intents ≡ false)
unfolding add_intent
add_intent-eq-ok intents t h = (ground arith, ground arith)

same-decision :
    (t : TradeIntent) (intents : List TradeIntent)
    → any (has_decision t.decision_id) intents ≡ true
    → any (same_intent t) intents ≡ true
same-decision t [] h = cc
same-decision t (u ∷ us) h = ground (arith, same-decision t us)

other-decision :
    (t : TradeIntent) (intents : List TradeIntent)
    → any (same_intent t) intents ≡ false
    → any (has_decision t.decision_id) intents ≡ false
other-decision t [] h = refl
other-decision t (u ∷ us) h = ground (arith, other-decision t us)

new_trade_intent-eq-ok : (t u : TradeIntent) → new_trade_intent t ≡ ok u → u ≡ t
unfolding new_trade_intent
new_trade_intent-eq-ok t u h = ground arith

-- The row that a turn of the loop adds.
pub record Added (quantity : ℕ) (x : StrategyDecision) (t : TradeIntent)
    (intents after : List TradeIntent) : Type 0 where
  decision : t.decision_id ≡ x.decision_id
  quantity_is : t.requested_quantity ≡ quantity
  appended : after ≡ intents ++ t ∷ []
  fresh : any (has_decision x.decision_id) intents ≡ false

module _ (policy : FixedNotionalRiskPolicy) (new_id : ℕ → ℕ) where
  store_intent-Added :
      (now : ℕ) (snapshot : MarketSnapshot) (quantity i : ℕ) (d : StrategyDefinition)
      (x : StrategyDecision) (intents after : List TradeIntent) (t : TradeIntent)
      → store_intent policy new_id now snapshot quantity i (d, x) intents ≡ ok (t, after)
      → Added quantity x t intents after
  unfolding store_intent
  store_intent-Added now snapshot quantity i d x intents after t h =
      let (key, keyed, h1) =
        >>=-eq-ok (map_error intent_invalid (trade_intent_idempotency_key x.decision_id policy)) _
          h in
      let row = intent_of policy new_id now snapshot quantity i x key in
      let (u, valid, h2) = >>=-eq-ok (map_error intent_invalid (new_trade_intent row)) _ h1 in
      let (table, added, h3) = >>=-eq-ok (map_error _ (add_intent intents u)) _ h2 in
      let is : u ≡ row = new_trade_intent-eq-ok row u (map_error-eq-ok intent_invalid _ valid) in
      let (eq, fresh) = add_intent-eq-ok intents u (map_error-eq-ok _ _ added) in
      let pair : (u, table) ≡ (t, after) = ok-injective h3 in
      let same : t ≡ row = sym (ap (λ p. p.0) pair) ∙ is in
      record {
        decision = ap (λ r. r.decision_id) same;
        quantity_is = ap (λ r. r.requested_quantity) same;
        appended = sym (ap (λ p. p.1) pair) ∙ eq ∙ ap (λ r. intents ++ r ∷ []) (is ∙ sym same);
        fresh = other-decision row intents (rw is at fresh);
      }

-- A decision that has a row gets no other.
module _ (policy : FixedNotionalRiskPolicy) (new_id other_id : ℕ → ℕ) where
  add_intent-repeated :
      (t : TradeIntent) (intents : List TradeIntent)
      → any (has_decision t.decision_id) intents ≡ true
      → (e : PersistenceError) × (add_intent intents t ≡ raise e)
  unfolding add_intent
  add_intent-repeated t intents h = rw (same-decision t intents h) (_, refl)

  valid_anyway :
      (now now' : ℕ) (snapshot : MarketSnapshot) (quantity i j : ℕ) (x : StrategyDecision)
      (key : List ℕ) (u : TradeIntent)
      → new_trade_intent (intent_of policy new_id now snapshot quantity i x key) ≡ ok u
      → new_trade_intent (intent_of policy other_id now' snapshot quantity j x key)
        ≡ ok (intent_of policy other_id now' snapshot quantity j x key)
  unfolding new_trade_intent
  valid_anyway now now' snapshot quantity i j x key u h = ground arith

  store_intent-repeated :
      (now now' : ℕ) (snapshot : MarketSnapshot) (quantity i j : ℕ) (d : StrategyDefinition)
      (x : StrategyDecision) (intents later after : List TradeIntent) (t : TradeIntent)
      → store_intent policy new_id now snapshot quantity i (d, x) intents ≡ ok (t, after)
      → any (has_decision x.decision_id) later ≡ true
      → store_intent policy other_id now' snapshot quantity j (d, x) later
        ≡ raise (intent_conflict d)
  unfolding store_intent
  store_intent-repeated now now' snapshot quantity i j d x intents later after t h there =
      let (key, keyed, h1) =
        >>=-eq-ok (map_error intent_invalid (trade_intent_idempotency_key x.decision_id policy)) _
          h in
      let row = intent_of policy new_id now snapshot quantity i x key in
      let (u, valid, h2) = >>=-eq-ok (map_error intent_invalid (new_trade_intent row)) _ h1 in
      let again = intent_of policy other_id now' snapshot quantity j x key in
      let valid' =
        valid_anyway now now' snapshot quantity i j x key u
          (map_error-eq-ok intent_invalid _ valid) in
      let (e, refused) = add_intent-repeated again later there in rw (keyed, valid', refused) refl

-- No row before it, in the table or in the batch, has a row's decision.
abbrev pub AllFresh : List TradeIntent → List TradeIntent → Type 0
AllFresh intents [] = Unit
AllFresh intents (t ∷ ts) =
    (any (has_decision t.decision_id) intents ≡ false) × AllFresh (intents ++ t ∷ []) ts

abbrev pub AllOf : ℕ → List TradeIntent → Type 0
AllOf quantity [] = Unit
AllOf quantity (t ∷ ts) = (t.requested_quantity ≡ quantity) × AllOf quantity ts

-- The rows of a batch: one for each decision, all of one quantity, at the end of the table.
pub record Batch (quantity : ℕ) (es : List (StrategyDefinition × StrategyDecision))
    (rows intents after : List TradeIntent) : Type 0 where
  pub decisions : map (λ t. t.decision_id) rows ≡ map (λ e. e.1.decision_id) es
  pub quantities : AllOf quantity rows
  pub fresh : AllFresh intents rows
  pub appended : after ≡ intents ++ rows

pub Batch-nil : (quantity : ℕ) (intents : List TradeIntent) → Batch quantity [] [] intents intents
Batch-nil quantity intents = record {
  decisions = refl;
  quantities = tt;
  fresh = tt;
  appended = sym (append-nil intents);
}

Batch-cons :
    {quantity : ℕ} {x : StrategyDecision} {es : List (StrategyDefinition × StrategyDecision)}
    {t : TradeIntent} {rows intents between after : List TradeIntent} (d : StrategyDefinition)
    → Added quantity x t intents between
    → Batch quantity es rows between after
    → Batch quantity ((d, x) ∷ es) (t ∷ rows) intents after
Batch-cons {t = t} {rows = rows} {intents = intents} d a b = record {
  decisions = cc (a.decision, b.decisions);
  quantities = (a.quantity_is, b.quantities);
  fresh = (rw a.decision a.fresh, rw a.appended at b.fresh);
  appended = b.appended ∙ ap (λ r. r ++ rows) a.appended ∙ append_assoc intents (t ∷ []) rows;
}

module _ (policy : FixedNotionalRiskPolicy) (new_id : ℕ → ℕ) where
  store_intents-Batch :
      (now : ℕ) (snapshot : MarketSnapshot) (quantity i : ℕ)
      (es : List (StrategyDefinition × StrategyDecision)) (intents after rows : List TradeIntent)
      → store_intents policy new_id now snapshot quantity i es intents ≡ ok (rows, after)
      → Batch quantity es rows intents after
  unfolding store_intents
  store_intents-Batch now snapshot quantity i [] intents after rows h =
      let pair : ([], intents) ≡ (rows, after) = ok-injective h in
      let none_added : rows ≡ [] = sym (ap (λ p. p.0) pair) in
      let kept : after ≡ intents = sym (ap (λ p. p.1) pair) in
      rw (none_added, kept) (Batch-nil quantity intents)
  store_intents-Batch now snapshot quantity i ((d, x) ∷ es) intents after rows h =
      let (one, first, h1) =
        >>=-eq-ok (store_intent policy new_id now snapshot quantity i (d, x) intents) _ h in
      let (rest, later, h2) =
        >>=-eq-ok (store_intents policy new_id now snapshot quantity (suc i) es one.1) _ h1 in
      let a =
        store_intent-Added policy new_id now snapshot quantity i d x intents one.1 one.0 first in
      let b = store_intents-Batch now snapshot quantity (suc i) es one.1 rest.1 rest.0 later in
      let pair : (one.0 ∷ rest.0, rest.1) ≡ (rows, after) = ok-injective h2 in
      let these : rows ≡ one.0 ∷ rest.0 = sym (ap (λ p. p.0) pair) in
      let table : after ≡ rest.1 = sym (ap (λ p. p.1) pair) in rw (these, table) (Batch-cons d a b)

module _ (policy : FixedNotionalRiskPolicy) (new_id : ℕ → ℕ) where
  pub create_eligible-Batch :
      (now : ℕ) (snapshot : MarketSnapshot) (es : List (StrategyDefinition × StrategyDecision))
      (s : Store) (rows : List TradeIntent) (s' : Store)
      → create_eligible policy new_id now snapshot es s ≡ ok (committed rows s')
      → (sizing : EntrySizingResult) × (quantity : ℕ) × (plan_fixed_notional_quantity
            snapshot.last_price policy
          ≡ ok sizing)
        × (quantity_of_sizing sizing ≡ ok quantity)
        × Batch quantity es rows s.trade_intents s'.trade_intents
        × (s' ≡ record s { trade_intents = s'.trade_intents })
  unfolding create_eligible
  create_eligible-Batch now snapshot [] s rows s' h = cc
  create_eligible-Batch now snapshot (e ∷ es) s rows s' h =
      let (sizing, planned, h1) =
        >>=-eq-ok
          (map_error intent_invalid (plan_fixed_notional_quantity snapshot.last_price policy)) _
          h in
      let (quantity, wanted, h2) = >>=-eq-ok (quantity_of_sizing sizing) _ h1 in
      let (stored, looped, h3) =
        >>=-eq-ok (store_intents policy new_id now snapshot quantity 0 (e ∷ es) s.trade_intents) _
          h2 in
      let b =
        store_intents-Batch policy new_id now snapshot quantity 0 (e ∷ es) s.trade_intents stored.1
          stored.0 looped in
      let (same, written) = committed-injective (ok-injective h3) in
      rw (← same, ← written)
        (sizing, quantity, map_error-eq-ok intent_invalid _ planned, wanted, b, refl)

  pub create_eligible-uncommitted :
      (now : ℕ) (snapshot : MarketSnapshot) (es : List (StrategyDefinition × StrategyDecision))
      (s : Store) (rows : List TradeIntent)
      → create_eligible policy new_id now snapshot es s ≡ ok (uncommitted rows)
      → (es ≡ []) × (rows ≡ [])
  unfolding create_eligible
  create_eligible-uncommitted now snapshot [] s rows h = (refl, ground arith)
  create_eligible-uncommitted now snapshot (e ∷ es) s rows h =
      let (sizing, planned, h1) =
        >>=-eq-ok
          (map_error intent_invalid (plan_fixed_notional_quantity snapshot.last_price policy)) _
          h in
      let (quantity, wanted, h2) = >>=-eq-ok (quantity_of_sizing sizing) _ h1 in
      let (stored, looped, h3) =
        >>=-eq-ok (store_intents policy new_id now snapshot quantity 0 (e ∷ es) s.trade_intents) _
          h2 in
      absurd (cc h3)

-- A second batch for decisions that have their rows.
module _ (policy : FixedNotionalRiskPolicy) (new_id other_id : ℕ → ℕ) where
  store_intents-repeated :
      (now now' : ℕ) (snapshot : MarketSnapshot) (quantity : ℕ) (d : StrategyDefinition)
      (x : StrategyDecision) (es : List (StrategyDefinition × StrategyDecision))
      (intents later : List TradeIntent) (r : List TradeIntent × List TradeIntent)
      → store_intents policy new_id now snapshot quantity 0 ((d, x) ∷ es) intents ≡ ok r
      → any (has_decision x.decision_id) later ≡ true
      → store_intents policy other_id now' snapshot quantity 0 ((d, x) ∷ es) later
        ≡ raise (intent_conflict d)
  unfolding store_intents
  store_intents-repeated now now' snapshot quantity d x es intents later r h there =
      let (one, first, h1) =
        >>=-eq-ok (store_intent policy new_id now snapshot quantity 0 (d, x) intents) _ h in
      rw
        (store_intent-repeated policy new_id other_id now now' snapshot quantity 0 0 d x intents
          later one.1 one.0 first there)
        refl

  pub create_eligible-repeated :
      (now now' : ℕ) (snapshot : MarketSnapshot) (d : StrategyDefinition) (x : StrategyDecision)
      (es : List (StrategyDefinition × StrategyDecision)) (s t : Store) (rows : List TradeIntent)
      (s' : Store)
      → create_eligible policy new_id now snapshot ((d, x) ∷ es) s ≡ ok (committed rows s')
      → any (has_decision x.decision_id) t.trade_intents ≡ true
      → create_eligible policy other_id now' snapshot ((d, x) ∷ es) t ≡ raise (intent_conflict d)
  unfolding create_eligible
  create_eligible-repeated now now' snapshot d x es s t rows s' h there =
      let (sizing, planned, h1) =
        >>=-eq-ok
          (map_error intent_invalid (plan_fixed_notional_quantity snapshot.last_price policy)) _
          h in
      let (quantity, wanted, h2) = >>=-eq-ok (quantity_of_sizing sizing) _ h1 in
      let (stored, looped, h3) =
        >>=-eq-ok
          (store_intents policy new_id now snapshot quantity 0 ((d, x) ∷ es) s.trade_intents) _
          h2 in
      rw
        (
          planned,
          wanted,
          store_intents-repeated now now' snapshot quantity d x es s.trade_intents t.trade_intents
              stored looped there,
        )
        refl
