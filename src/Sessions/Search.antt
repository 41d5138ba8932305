-- ===== src/Sessions/Search.antt =====
-- The loop over sessions in UsEquityCompletedSessionResolver.resolve
-- (application/services/completed_session.py).
use auto_trading_v.Prelude.{
  ◌∷◌, [], ℕ, zero, suc, ◌+◌, ◌≤◌, ◌<◌, ◌≡◌, refl, sym, ◌∙◌, ◌⊎◌, inl, inr, false, Bool-cases,
  Option, some, none, Option-cases, List, get_elem?, arith, leb, leb→le,
}
use auto_trading_v.Sessions.{MarketSession, previous_date, search}

-- The date of the session before an index.
abbrev pub IsBefore : List MarketSession → ℕ → Option ℕ → Type 0
IsBefore sessions zero previous = previous ≡ none
IsBefore sessions (suc i) previous =
    (s : MarketSession) × (get_elem? sessions i ≡ some s) × (previous ≡ some s.session_date)

earlier_elem :
    (sessions : List MarketSession) (i : ℕ) {t : MarketSession}
    → get_elem? sessions (suc i) ≡ some t
    → (s : MarketSession) × (get_elem? sessions i ≡ some s)
earlier_elem [] i h = absurd (cc h)
earlier_elem (x ∷ xs) zero h = (x, refl)
earlier_elem (x ∷ xs) (suc i) h = earlier_elem xs i h

previous_date-IsBefore :
    (sessions : List MarketSession) (i : ℕ) {t : MarketSession}
    → get_elem? sessions i ≡ some t
    → IsBefore sessions i (previous_date sessions i)
previous_date-IsBefore sessions zero h = refl
previous_date-IsBefore sessions (suc i) h =
    let (s, there) = earlier_elem sessions i h in (s, there, rw there refl)

module _ (sessions : List MarketSession) (as_of grace : ℕ) where
  -- A session that is complete, with the grace period.
  abbrev pub IsComplete : MarketSession → Type 0
  IsComplete s = s.close_at + grace ≤ as_of

  -- The session at an index, complete, with no complete one after it below a bound.
  pub record IsLatest (bound : ℕ) (s : MarketSession) (previous : Option ℕ) : Type 0 where
    pub index : ℕ
    pub below : index < bound
    pub there : get_elem? sessions index ≡ some s
    pub complete : IsComplete s
    pub before : IsBefore sessions index previous
    pub later :
        (j : ℕ) (t : MarketSession)
        → index < j
        → j < bound
        → get_elem? sessions j ≡ some t
        → ¬ IsComplete t

  -- What the loop answers.
  abbrev pub Found : ℕ → Option (MarketSession × Option ℕ) → Type 0
  Found bound none =
      (j : ℕ) (t : MarketSession) → j < bound → get_elem? sessions j ≡ some t → ¬ IsComplete t
  Found bound (some (s, previous)) = IsLatest bound s previous

  -- One more index, whose session is not complete.
  Found-more :
      (i : ℕ) (o : Option (MarketSession × Option ℕ))
      → ((t : MarketSession) → get_elem? sessions i ≡ some t → ¬ IsComplete t)
      → Found i o
      → Found (suc i) o
  Found-more i none not_this h = λ j t below there. elim (last j i below) [
    | inl same ↦ not_this t (rw same at there)
    | inr less ↦ h j t less there
  ]
    where
      last : (j i : ℕ) → j < suc i → (j ≡ i) ⊎ (j < i)
      last j i h = ground arith
  Found-more i (some (s, previous)) not_this h = record {
    index = h.index;
    below = omega (arith, h.below);
    there = h.there;
    complete = h.complete;
    before = h.before;
    later = λ j t after below there. elim (last j i below) [
      | inl same ↦ not_this t (rw same at there)
      | inr less ↦ h.later j t after less there
    ];
  }
    where
      last : (j i : ℕ) → j < suc i → (j ≡ i) ⊎ (j < i)
      last j i h = ground arith

  pub search-Found : (bound : ℕ) → Found bound (search sessions as_of grace bound)
  unfolding search
  search-Found zero = λ j t below there. absurd (omega arith)
  search-Found (suc i) = elim (Option-cases (get_elem? sessions i)) [
    | inl outside ↦
        rw (outside, search)
          (Found-more i (search sessions as_of grace i)
            (λ t there. absurd (let gone = rw outside at there in cc)) (search-Found i))
    | inr (s, there) ↦ elim (Bool-cases (leb (s.close_at + grace) as_of)) [
      | inl complete ↦
          rw (there, complete, search)
            (record {
              index = i;
              below = omega arith;
              there = there;
              complete = leb→le (s.close_at + grace) as_of complete;
              before = previous_date-IsBefore sessions i there;
              later = λ j t after below _. absurd (omega arith);
            })
      | inr early ↦
          rw (there, early, search)
            (Found-more i (search sessions as_of grace i) (not_complete s there early)
              (search-Found i))
    ]
  ]
    where
      not_complete :
          (s : MarketSession)
          → get_elem? sessions i ≡ some s
          → leb (s.close_at + grace) as_of ≡ false
          → (t : MarketSession) → get_elem? sessions i ≡ some t
          → ¬ IsComplete t
      not_complete s there early t there' complete =
          let e : some s ≡ some t = sym there ∙ there' in
          let same : s ≡ t = cc in
          let early' : leb (t.close_at + grace) as_of ≡ false = rw (← same) early in ground arith
