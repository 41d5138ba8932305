-- ===== src/CandidateDecisions/Rows.antt =====
-- The loop of decide_all (application/services/strategy_decision.py) over the selected signals.
use mathlib.Core.List.{append_assoc, append-nil}
use auto_trading_v.Prelude.{
  ℕ, suc, ◌≡◌, refl, ap, sym, ◌∙◌, inl, inr, true, false, Bool-cases, List, [], ◌∷◌, ◌++◌, any,
  select, select-append, arith, ==_refl, codes_eq, codes_eq_refl, codes_eq→eq, ok, map_error,
  map_error-eq-ok, >>=-eq-ok, ok-injective, subst,
}
use auto_trading_v.Strategies.{StrategyDefinition, decide}
use auto_trading_v.CandidateDecisions.{
  CandidateDecision, invalid_evaluation, invalid_contract, decision_conflict,
  candidate_strategy_decision_key, new_candidate_decision, same_decision, add_decision, row_for,
  Selected, store_decision, store_decisions,
}
use auto_trading_v.CandidateDecisions.Turns.{
  is_row, Decided, add_decision-eq-ok, decide-eq-ok, new_candidate_decision-eq-ok,
}

module _ (candidate_id : ℕ) where
  -- The rows of the loop, one for each strategy.
  abbrev pub AllDecided : List Selected → List CandidateDecision → Type 0
  AllDecided [] [] = Unit
  AllDecided [] (_ ∷ _) = ⊥
  AllDecided (_ ∷ _) [] = ⊥
  AllDecided (x ∷ xs) (r ∷ rs) = Decided candidate_id x r × AllDecided xs rs

  -- Every strategy has the one row that its turn stored.
  abbrev pub AllSingle : List Selected → List CandidateDecision → List CandidateDecision → Type 0
  AllSingle [] rs table = Unit
  AllSingle (_ ∷ _) [] table = ⊥
  AllSingle (x ∷ xs) (r ∷ rs) table =
      (select (is_row candidate_id x.0) table ≡ r ∷ []) × AllSingle xs rs table

module _ (new_id : ℕ → ℕ) (decided_at candidate_id : ℕ) where
  store_decision-Decided :
      (i : ℕ) (x : Selected) (table : List CandidateDecision) {r : CandidateDecision}
      {after : List CandidateDecision}
      → store_decision new_id decided_at candidate_id i x table ≡ ok (r, after)
      → Decided candidate_id x r × (any (same_decision r) table ≡ false) × (after ≡ table ++ r ∷ [])
  unfolding store_decision
  store_decision-Decided i (d, e, signal) table {r} {after} h =
      let (result, made, h1) =
        >>=-eq-ok (map_error (λ _. invalid_evaluation d invalid_contract) (decide signal d)) _ h in
      let (key, keyed, h2) =
        >>=-eq-ok
          (candidate_strategy_decision_key candidate_id result.strategy_id result.strategy_version)
          _ h1 in
      let (row, contracted, h3) =
        >>=-eq-ok (new_candidate_decision (row_for new_id decided_at candidate_id i e result key)) _
          h2 in
      let (rest, added, h4) =
        >>=-eq-ok (map_error (λ _. decision_conflict d) (add_decision table row)) _ h3 in
      let (free, appended) = add_decision-eq-ok table row (map_error-eq-ok _ _ added) in
      let (named, versioned, acted) = decide-eq-ok signal d (map_error-eq-ok _ _ made) in
      let (kept, from) =
        new_candidate_decision-eq-ok (row_for new_id decided_at candidate_id i e result key)
          contracted in
      let same : row ≡ r = ap (λ p. p.0) (ok-injective h4) in
      let last : rest ≡ after = ap (λ p. p.1) (ok-injective h4) in
      subst
        (λ r.
          Decided candidate_id (d, e, signal) r
          × (any (same_decision r) table ≡ false)
          × (after ≡ table ++ r ∷ []))
        same
        (
          record {
            candidate = ap (λ x. x.candidate_id) kept;
            strategy = ap (λ x. x.strategy_id) kept ∙ named;
            version = ap (λ x. x.strategy_version) kept ∙ versioned;
            action = ap (λ x. x.action) kept ∙ acted;
            source = from;
          },
          free,
          sym last ∙ appended,
        )

  Decided-is_row :
      (x : Selected) (r : CandidateDecision)
      → Decided candidate_id x r
      → is_row candidate_id x.0 r ≡ true
  Decided-is_row x r h =
      rw
        (
          h.candidate,
          h.strategy,
          h.version,
          ==_refl candidate_id,
          ==_refl x.0.strategy_id,
          codes_eq_refl x.0.strategy_version,
        )
        refl

  -- Two rows of one candidate and strategy have a unique key in common.
  is_row-same :
      (d : StrategyDefinition) (r q : CandidateDecision)
      → is_row candidate_id d r ≡ true
      → is_row candidate_id d q ≡ true
      → same_decision r q ≡ true
  is_row-same d r q hr hq =
      let mine : r.decision.strategy_version ≡ d.strategy_version =
        codes_eq→eq r.decision.strategy_version d.strategy_version (ground (arith, hr)) in
      let other : q.decision.strategy_version ≡ d.strategy_version =
        codes_eq→eq q.decision.strategy_version d.strategy_version (ground (arith, hq)) in
      let same : codes_eq q.decision.strategy_version r.decision.strategy_version ≡ true =
        rw (mine, other) (codes_eq_refl d.strategy_version) in
      ground (arith, hr, hq, same)

  select-free :
      (d : StrategyDefinition) (r : CandidateDecision) (table : List CandidateDecision)
      → is_row candidate_id d r ≡ true
      → any (same_decision r) table ≡ false
      → select (is_row candidate_id d) table ≡ []
  select-free d r [] h free = refl
  select-free d r (q ∷ qs) h free = elim (Bool-cases (is_row candidate_id d q)) [
    | inl row ↦ absurd (ground (arith, free, is_row-same d r q h row))
    | inr other ↦ rw other (select-free d r qs h (ground (arith, free)))
  ]

  append-empty : (xs ys : List CandidateDecision) → xs ++ ys ≡ [] → xs ≡ []
  append-empty [] ys h = refl
  append-empty (x ∷ xs) ys h = cc

  -- No further row of a strategy is stored where there is one.
  store_decisions-other :
      (d : StrategyDefinition) (i : ℕ) (xs : List Selected) (table : List CandidateDecision)
      {rows after : List CandidateDecision}
      → (select (is_row candidate_id d) table ≡ [] → ⊥)
      → store_decisions new_id decided_at candidate_id i xs table ≡ ok (rows, after)
      → select (is_row candidate_id d) rows ≡ []
  unfolding store_decisions
  store_decisions-other d i [] table {rows} {after} present h =
      let none_left : [] ≡ rows = ap (λ p. p.0) (ok-injective h) in rw (sym none_left) refl
  store_decisions-other d i (x ∷ xs) table {rows} {after} present h =
      let (one, stored, h1) =
        >>=-eq-ok (store_decision new_id decided_at candidate_id i x table) _ h in
      let (rest, later, h2) =
        >>=-eq-ok (store_decisions new_id decided_at candidate_id (suc i) xs one.1) _ h1 in
      let (decided, free, appended) = store_decision-Decided i x table stored in
      let all_rows : one.0 ∷ rest.0 ≡ rows = ap (λ p. p.0) (ok-injective h2) in
      let still : select (is_row candidate_id d) one.1 ≡ [] → ⊥ = λ e. present (
        append-empty (select (is_row candidate_id d) table) _
          (sym (select-append (is_row candidate_id d) table (one.0 ∷ [])) ∙ rw (sym appended) e)) in
      let tail = store_decisions-other d (suc i) xs one.1 still later in
      rw (sym all_rows) (elim (Bool-cases (is_row candidate_id d one.0)) [
        | inl row ↦ absurd (present (select-free d one.0 table row free))
        | inr other ↦ rw other tail
      ])

  pub store_decisions-Single :
      (i : ℕ) (xs : List Selected) (table : List CandidateDecision)
      {rows after : List CandidateDecision}
      → store_decisions new_id decided_at candidate_id i xs table ≡ ok (rows, after)
      → AllDecided candidate_id xs rows
        × (after ≡ table ++ rows)
        × AllSingle candidate_id xs rows after
  unfolding store_decisions
  store_decisions-Single i [] table {rows} {after} h =
      let nothing : [] ≡ rows = ap (λ p. p.0) (ok-injective h) in
      let last : table ≡ after = ap (λ p. p.1) (ok-injective h) in
      (subst (AllDecided candidate_id []) nothing tt, rw (sym nothing, append-nil) (sym last), tt)
  store_decisions-Single i (x ∷ xs) table {rows} {after} h =
      let (one, stored, h1) =
        >>=-eq-ok (store_decision new_id decided_at candidate_id i x table) _ h in
      let (rest, later, h2) =
        >>=-eq-ok (store_decisions new_id decided_at candidate_id (suc i) xs one.1) _ h1 in
      let (decided, free, appended) = store_decision-Decided i x table stored in
      let (all, whole, singles) = store_decisions-Single (suc i) xs one.1 later in
      let row = Decided-is_row x one.0 decided in
      let here : select (is_row candidate_id x.0) one.1 ≡ one.0 ∷ [] = rw appended (
        select-append (is_row candidate_id x.0) table (one.0 ∷ [])
        ∙ rw (select-free x.0 one.0 table row free, row) refl) in
      let none_later =
        store_decisions-other x.0 (suc i) xs one.1
          (λ e. let bad : one.0 ∷ [] ≡ [] = sym here ∙ e in cc) later in
      let single : select (is_row candidate_id x.0) rest.1 ≡ one.0 ∷ [] =
        rw whole
          (select-append (is_row candidate_id x.0) one.1 rest.0 ∙ rw (here, none_later) refl) in
      subst
        (λ p.
          AllDecided candidate_id (x ∷ xs) p.0
          × (p.1 ≡ table ++ p.0)
          × AllSingle candidate_id (x ∷ xs) p.0 p.1)
        (ok-injective h2)
        (
          (decided, all),
          whole ∙ ap (λ t. t ++ rest.0) appended ∙ append_assoc table (one.0 ∷ []) rest.0,
          (single, singles),
        )
