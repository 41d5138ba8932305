-- ===== src/TradeIntents/Outcome.antt =====
-- A call of create_all (application/services/trade_intent.py) that returned: the decisions it read,
-- the sizing, and the rows.
use auto_trading_v.Prelude.{
  ℕ, ◌≡◌, ◌≢◌, refl, ap, sym, ◌∙◌, ◌⊎◌, inl, inr, Bool, true, false, Bool-cases, not, ◌||◌, some,
  List, [], ◌∷◌, ◌++◌, map, select, arith, ◌==◌, codes_eq→eq, ok, raise_if, >>=-eq-ok, or_raise,
  or_raise-eq-ok, ok-injective, subst,
}
use auto_trading_v.UnitOfWork.{
  StrategyAction, enter_long, exit_long, observe, skip, StrategyDecision, MarketSnapshot, Candidate,
  TradeIntent, Store, get_candidate, get_snapshot,
}
use auto_trading_v.Strategies.{StrategyDefinition}
use auto_trading_v.TradeIntents.{
  RiskOutcome, approved, declined, FixedNotionalRiskPolicy, EntrySizingResult,
  plan_fixed_notional_quantity,
}
use auto_trading_v.TradeIntents.Service.{
  invalid_decision, candidate_mismatch, risk_rejected, is_enter, is_observe, is_skip, is_of,
  only_match, validate_action, decision_for, eligible_decisions, decisions_of, quantity_of_sizing,
  create_all,
}
use auto_trading_v.TradeIntents.Batch.{AllFresh, AllOf}
use auto_trading_v.TradeIntents.Calls.{create_all-Stored}

-- The one decision of a candidate that a strategy's version made, with an action that it may have.
pub record Chosen (candidate_id : ℕ) (table : List StrategyDecision) (d : StrategyDefinition)
    (x : StrategyDecision) : Type 0 where
  pub only : select (is_of d) table ≡ x ∷ []
  pub candidate : x.candidate_id ≡ candidate_id
  pub strategy : x.strategy_id ≡ d.strategy_id
  pub version : x.strategy_version ≡ d.strategy_version
  pub action :
      (d.observation_only ≡ true) × (x.action ≡ observe)
      ⊎ (d.observation_only ≡ false) × ((x.action ≡ enter_long) ⊎ (x.action ≡ skip))

abbrev pub AllChosen :
    ℕ → List StrategyDecision → List StrategyDefinition → List StrategyDecision → Type 0
AllChosen candidate_id table [] [] = Unit
AllChosen candidate_id table [] (_ ∷ _) = ⊥
AllChosen candidate_id table (_ ∷ _) [] = ⊥
AllChosen candidate_id table (d ∷ ds) (x ∷ xs) =
    Chosen candidate_id table d x × AllChosen candidate_id table ds xs

-- A row for each decision to enter, in order, of one quantity, and none for the others.
pub data Entered (quantity : ℕ) : List StrategyDecision → List TradeIntent → Type 0 where
  nothing_left : Entered quantity [] []
  entering :
      {x : StrategyDecision} {xs : List StrategyDecision} {t : TradeIntent} {ts : List TradeIntent}
      → x.action ≡ enter_long
      → t.decision_id ≡ x.decision_id
      → t.requested_quantity ≡ quantity
      → Entered quantity xs ts
      → Entered quantity (x ∷ xs) (t ∷ ts)
  staying :
      {x : StrategyDecision} {xs : List StrategyDecision} {ts : List TradeIntent}
      → x.action ≢ enter_long
      → Entered quantity xs ts
      → Entered quantity (x ∷ xs) ts

is_enter-eq : (a : StrategyAction) → is_enter a ≡ true → a ≡ enter_long
is_enter-eq enter_long h = refl
is_enter-eq exit_long h = cc
is_enter-eq observe h = cc
is_enter-eq skip h = cc

not_enter : (a : StrategyAction) → is_enter a ≡ false → a ≢ enter_long
not_enter a h e = let k : is_enter enter_long ≡ false = subst (λ b. is_enter b ≡ false) e h in cc k

is_observe-eq : (a : StrategyAction) → is_observe a ≡ true → a ≡ observe
is_observe-eq observe h = refl
is_observe-eq enter_long h = cc
is_observe-eq exit_long h = cc
is_observe-eq skip h = cc

trading-eq : (a : StrategyAction) → (is_enter a || is_skip a) ≡ true → (a ≡ enter_long) ⊎ (a ≡ skip)
trading-eq enter_long h = inl refl
trading-eq skip h = inr refl
trading-eq exit_long h = cc
trading-eq observe h = cc

validate_action-eq-ok :
    (d : StrategyDefinition) (a : StrategyAction) {u : Unit {0}}
    → validate_action d a ≡ ok u
    → (d.observation_only ≡ true) × (a ≡ observe)
      ⊎ (d.observation_only ≡ false) × ((a ≡ enter_long) ⊎ (a ≡ skip))
unfolding validate_action
validate_action-eq-ok d a h = elim (Bool-cases d.observation_only) [
  | inl only ↦ inl (only, is_observe-eq a (ground (arith, h, only)))
  | inr trades ↦ inr (trades, trading-eq a (ground (arith, h, trades)))
]

only_match-eq-ok :
    (d : StrategyDefinition) (l : List StrategyDecision) {x : StrategyDecision}
    → only_match d l ≡ ok x
    → l ≡ x ∷ []
only_match-eq-ok d [] h = cc
only_match-eq-ok d (y ∷ []) h = cc
only_match-eq-ok d (y ∷ z ∷ l) h = cc

select-meets :
    (p : StrategyDecision → Bool) (l : List StrategyDecision) {x : StrategyDecision}
    {xs : List StrategyDecision}
    → select p l ≡ x ∷ xs
    → p x ≡ true
select-meets p [] h = cc
select-meets p (y ∷ l) {x} h = elim (Bool-cases (p y)) [
  | inl here ↦ let same : y ≡ x = cc (rw here at h) in subst (λ z. p z ≡ true) same here
  | inr later ↦ select-meets p l (rw later at h)
]

decision_for-Chosen :
    (candidate_id : ℕ) (table : List StrategyDecision) (d : StrategyDefinition)
    {x : StrategyDecision}
    → decision_for candidate_id table d ≡ ok x
    → Chosen candidate_id table d x
unfolding decision_for
decision_for-Chosen candidate_id table d {x} h =
    let (y, one, h1) = >>=-eq-ok (only_match d (select (is_of d) table)) _ h in
    let (u, mine, h2) =
      >>=-eq-ok
        (raise_if (not (y.candidate_id == candidate_id)) (invalid_decision d candidate_mismatch)) _
        h1 in
    let (v, valid, h3) = >>=-eq-ok (validate_action d y.action) _ h2 in
    let only = only_match-eq-ok d (select (is_of d) table) one in
    let meets = select-meets (is_of d) table only in
    subst (Chosen candidate_id table d) (ok-injective h3) (record {
      only = only;
      candidate = ground (arith, mine);
      strategy = ground (arith, meets);
      version = codes_eq→eq y.strategy_version d.strategy_version (ground (arith, meets));
      action = validate_action-eq-ok d y.action valid;
    })

-- The first row of a list whose decisions are known.
first_row :
    (quantity k : ℕ) (ks : List ℕ) (rows : List TradeIntent)
    → map (λ t. t.decision_id) rows ≡ k ∷ ks
    → AllOf quantity rows
    → (t : TradeIntent) × (ts : List TradeIntent) × (t ∷ ts ≡ rows)
      × (t.decision_id ≡ k)
      × (map (λ t. t.decision_id) ts ≡ ks)
      × (t.requested_quantity ≡ quantity)
      × AllOf quantity ts
first_row quantity k ks [] h a = cc
first_row quantity k ks (t ∷ ts) h a = (t, ts, refl, cc h, cc h, a.0, a.1)

-- What the loop over the strategies and the loop over its decisions did together.
eligible-Entered :
    (candidate_id quantity : ℕ) (table : List StrategyDecision) (ds : List StrategyDefinition)
    (rows : List TradeIntent) {es : List (StrategyDefinition × StrategyDecision)}
    → eligible_decisions candidate_id table ds ≡ ok es
    → map (λ t. t.decision_id) rows ≡ map (λ e. e.1.decision_id) es
    → AllOf quantity rows
    → (xs : List StrategyDecision) × AllChosen candidate_id table ds xs × Entered quantity xs rows
unfolding eligible_decisions
eligible-Entered candidate_id quantity table [] [] h named amounts = ([], tt, nothing_left)
eligible-Entered candidate_id quantity table [] (t ∷ ts) {es} h named amounts =
    let none_left : [] ≡ es = ok-injective h in
    absurd (
      let bad : t.decision_id ∷ map (λ t. t.decision_id) ts ≡ [] =
        named ∙ ap (map (λ e. e.1.decision_id)) (sym none_left) in
      cc bad)
eligible-Entered candidate_id quantity table (d ∷ ds) rows {es} h named amounts =
    let (x, one, h1) = >>=-eq-ok (decision_for candidate_id table d) _ h in
    let (rest, later, h2) = >>=-eq-ok (eligible_decisions candidate_id table ds) _ h1 in
    let chosen = decision_for-Chosen candidate_id table d one in
    elim (Bool-cases (is_enter x.action)) [
      | inr stays ↦
          let same : rest ≡ es = rw stays at (ok-injective h2) in
          let (xs, all, entered) =
            eligible-Entered candidate_id quantity table ds rows later
              (named ∙ ap (map (λ e. e.1.decision_id)) (sym same)) amounts in
          (x ∷ xs, (chosen, all), staying (not_enter x.action stays) entered)
      | inl enters ↦
          let same : (d, x) ∷ rest ≡ es = rw enters at (ok-injective h2) in
          let names : map (λ t. t.decision_id) rows
              ≡ x.decision_id ∷ map (λ e. e.1.decision_id) rest =
            named ∙ ap (map (λ e. e.1.decision_id)) (sym same) in
          let (t, ts, split, decided, others, amount, amounts') =
            first_row quantity x.decision_id (map (λ e. e.1.decision_id) rest) rows names amounts in
          let (xs, all, entered) =
            eligible-Entered candidate_id quantity table ds ts later others amounts' in
          (
            x ∷ xs,
            (chosen, all),
            subst (Entered quantity (x ∷ xs)) split
                (entering (is_enter-eq x.action enters) decided amount entered),
          )
    ]

-- What a call of create_all that returned has read and stored.
pub record Created (policy : FixedNotionalRiskPolicy) (strategies : List StrategyDefinition)
    (candidate_id : ℕ) (s : Store) (rows : List TradeIntent) (s' : Store) : Type 0 where
  pub candidate : Candidate
  pub snapshot : MarketSnapshot
  pub decisions : List StrategyDecision
  pub quantity : ℕ
  pub candidate_found : get_candidate s candidate_id ≡ some candidate
  pub snapshot_found : get_snapshot s candidate.market_snapshot_id ≡ some snapshot
  pub chosen : AllChosen candidate_id (decisions_of s candidate_id) strategies decisions
  pub entered : Entered quantity decisions rows
  pub sized :
      (rows ≡ [])
      ⊎ (sizing : EntrySizingResult) × (plan_fixed_notional_quantity snapshot.last_price policy
          ≡ ok sizing)
        × (sizing.outcome ≡ approved)
        × (sizing.requested_quantity ≡ some quantity)
  pub fresh : AllFresh s.trade_intents rows
  pub stored : s' ≡ record s { trade_intents = s.trade_intents ++ rows }

RiskOutcome-cases : (o : RiskOutcome) → (o ≡ approved) ⊎ (o ≡ declined)
RiskOutcome-cases approved = inl refl
RiskOutcome-cases declined = inr refl

quantity_of_sizing-eq-ok :
    (r : EntrySizingResult) {quantity : ℕ}
    → quantity_of_sizing r ≡ ok quantity
    → (r.outcome ≡ approved) × (r.requested_quantity ≡ some quantity)
quantity_of_sizing-eq-ok r {quantity} h = elim (RiskOutcome-cases r.outcome) [
  | inl agreed ↦
      let asked : or_raise r.requested_quantity (risk_rejected []) ≡ ok quantity = rw agreed at h in
      (agreed, or_raise-eq-ok r.requested_quantity (risk_rejected []) asked)
  | inr refused ↦ absurd (ground (arith, h, refused))
]

-- When create_all returns, the candidate and its snapshot are stored, and each strategy's version
-- has exactly one decision of the candidate, which is to observe where the strategy only observes
-- and to enter or to skip where it does not. In the strategies' order, each of these decisions
-- whose action is to enter has one returned intent, with its identifier and one quantity, and each
-- other decision has none. There is no intent, or the sizing of the snapshot's price is approved
-- with that quantity. No intent of a returned intent's decision was there before it; the returned
-- intents stand at the end of the table, and the other tables are as they were.
pub create_all-Created :
    (policy : FixedNotionalRiskPolicy) (strategies : List StrategyDefinition) (new_id : ℕ → ℕ)
    (now candidate_id : ℕ) (s : Store) {rows : List TradeIntent} {s' : Store}
    → create_all policy new_id strategies now candidate_id s ≡ (ok rows, s')
    → Created policy strategies candidate_id s rows s'
create_all-Created policy strategies new_id now candidate_id s {rows} {s'} h =
    let c = create_all-Stored policy strategies new_id now candidate_id s h in
    let (decisions, chosen, entered) =
      eligible-Entered candidate_id c.quantity (decisions_of s candidate_id) strategies rows
        c.loaded.decided c.batch.decisions c.batch.quantities in
    record {
      candidate = c.loaded.candidate;
      snapshot = c.loaded.snapshot;
      decisions = decisions;
      quantity = c.quantity;
      candidate_found = c.loaded.candidate_found;
      snapshot_found = c.loaded.snapshot_found;
      chosen = chosen;
      entered = entered;
      sized = elim c.sized [
        | inl nothing ↦ inl nothing
        | inr (sizing, planned, wanted) ↦
            let (agreed, amount) = quantity_of_sizing-eq-ok sizing wanted in
            inr (sizing, planned, agreed, amount)
      ];
      fresh = c.batch.fresh;
      stored = c.others_kept ∙ ap (λ t. record s { trade_intents = t }) c.batch.appended;
    }
