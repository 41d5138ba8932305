-- ===== src/Scoring/Population.antt =====
-- calculate_component_scores (domain/feature_scoring/scoring.py) and _persisted_scores of a whole
-- population.
use mathlib.Core.List.{append_assoc}
use auto_trading_v.Prelude.{
  sum_of, ℕ, ◌≤◌, ◌≡◌, refl, ap, sym, ◌∙◌, inl, inr, Bool, true, false, Bool-cases, ◌||◌, Option,
  some, none, List, [], ◌∷◌, ◌++◌, map, select, length, arith, ◌==◌, ==_refl, ok, ◌>>=◌,
  if◌then◌else◌, any-append, select-append,
}
use auto_trading_v.Decimals.{Decimal}
use auto_trading_v.Decimals.Intervals.{In}
use auto_trading_v.Scoring.{
  relative_volume, Candidate, is_ready, component, ComponentScores, momentum_features,
  trend_features, breakout_features, price_action_features, stability_features, volume_features,
  volume_part, weighted_score, scores_for, calculate_component_scores, persisted_scores,
}
use auto_trading_v.Scoring.Percentiles.{most}
use auto_trading_v.Scoring.Components.{AllScores, weighted_score-In, relative_score-In}
use auto_trading_v.Scoring.Averages.{AllFeatures, has_item, component-In}

-- Scores from 0 to 100.
pub record Bounded (s : ComponentScores) : Type 0 where
  pub momentum : In 0 100 s.momentum
  pub trend : In 0 100 s.trend
  pub breakout : In 0 100 s.breakout
  pub price_action : In 0 100 s.price_action
  pub stability : In 0 100 s.stability
  pub volume : AllScores (volume_part s.volume)
  pub overall : In 0 100 s.overall

relative_volume-ok :
    (v : Option Decimal)
    → AllScores (volume_part v)
    → (w : Option Decimal) × (relative_volume v ≡ ok w) × AllScores (volume_part w)
relative_volume-ok none b = (none, refl, tt)
relative_volume-ok (some v) b =
    let (q, made, within) = relative_score-In v b.0 in (some q, rw made refl, (within, tt))

persisted_scores-ok :
    (s : ComponentScores)
    → Bounded s
    → (q : ComponentScores) × (persisted_scores s ≡ ok q) × Bounded q
unfolding persisted_scores
persisted_scores-ok s b =
    let (m, m_made, m_in) = relative_score-In s.momentum b.momentum in
    let (t, t_made, t_in) = relative_score-In s.trend b.trend in
    let (k, k_made, k_in) = relative_score-In s.breakout b.breakout in
    let (p, p_made, p_in) = relative_score-In s.price_action b.price_action in
    let (y, y_made, y_in) = relative_score-In s.stability b.stability in
    let (v, v_made, v_in) = relative_volume-ok s.volume b.volume in
    let (o, o_made, o_in) = relative_score-In s.overall b.overall in
    (
      record {
        momentum = m;
        trend = t;
        breakout = k;
        price_action = p;
        stability = y;
        volume = v;
        overall = o;
      },
      rw (m_made, t_made, k_made, p_made, y_made, v_made, o_made) refl,
      record {
        momentum = m_in;
        trend = t_in;
        breakout = k_in;
        price_action = p_in;
        stability = y_in;
        volume = v_in;
        overall = o_in;
      },
    )

-- What the items of a population have to have.
pub record IsComplete (cs : List Candidate) : Type 0 where
  pub few : length cs ≤ most
  pub momentum : AllFeatures momentum_features cs
  pub trend : AllFeatures trend_features cs
  pub breakout : AllFeatures breakout_features cs
  pub price_action : AllFeatures price_action_features cs
  pub stability : AllFeatures stability_features cs
  pub volume : AllFeatures volume_features (select (λ c. is_ready c.quality) cs)

-- Scores from 0 to 100 that RelativeScore accepts and keeps there.
abbrev pub AllPersisted : List (ℕ × ComponentScores) → Type 0
AllPersisted [] = Unit
AllPersisted (r ∷ rs) =
    (Bounded r.1 × ((q : ComponentScores) × (persisted_scores r.1 ≡ ok q) × Bounded q))
    × AllPersisted rs

weights-volume_part : (v : Option Decimal) → sum_of (λ a. a.1) (volume_part v) ≤ 10
weights-volume_part none = omega arith
weights-volume_part (some v) = omega arith

length-select : (cs : List Candidate) → length (select (λ c. is_ready c.quality) cs) ≤ length cs
length-select [] = omega arith
length-select (c ∷ cs) = ground (arith, length-select cs)

-- An item is in the population, and among the ready ones if it is ready.
abbrev Counted : List Candidate → Candidate → Type 0
Counted cs c =
    (has_item c.key cs ≡ true)
    × (is_ready c.quality ≡ true → has_item c.key (select (λ x. is_ready x.quality) cs) ≡ true)

abbrev AllCounted : List Candidate → List Candidate → Type 0
AllCounted cs [] = Unit
AllCounted cs (d ∷ ds) = Counted cs d × AllCounted cs ds

or_true : (b : Bool) → (b || true) ≡ true
or_true true = refl
or_true false = refl

has_item-middle : (ys ds : List Candidate) (d : Candidate) → has_item d.key (ys ++ d ∷ ds) ≡ true
has_item-middle ys ds d =
    any-append (λ c. c.key == d.key) ys (d ∷ ds) ∙ rw (==_refl d.key) (or_true _)

ready-middle :
    (ys ds : List Candidate) (d : Candidate)
    → is_ready d.quality ≡ true
    → has_item d.key (select (λ x. is_ready x.quality) (ys ++ d ∷ ds)) ≡ true
ready-middle ys ds d h =
    rw (select-append (λ x. is_ready x.quality) ys (d ∷ ds), h)
      (has_item-middle (select (λ x. is_ready x.quality) ys) (select (λ x. is_ready x.quality) ds)
        d)

AllCounted-suffix : (cs ys ds : List Candidate) → cs ≡ ys ++ ds → AllCounted cs ds
AllCounted-suffix cs ys [] h = tt
AllCounted-suffix cs ys (d ∷ ds) h = (
  (rw h (has_item-middle ys ds d), λ is. rw h (ready-middle ys ds d is)),
  AllCounted-suffix cs (ys ++ d ∷ []) ds (h ∙ sym (append_assoc ys (d ∷ []) ds)),
)

module _ (cs : List Candidate) (complete : IsComplete cs) where
  volume-In :
      (c : Candidate)
      → Counted cs c
      → (v : Option Decimal) × ((if is_ready c.quality
            then (component (select (λ x. is_ready x.quality) cs) c.key false volume_features
                >>= λ d. ok (some d))
            else ok none)
          ≡ ok v)
        × AllScores (volume_part v)
  volume-In c (there, among) = elim (Bool-cases (is_ready c.quality)) [
    | inl is ↦
        let (d, made, within) =
          component-In (select (λ x. is_ready x.quality) cs)
            (omega (arith, complete.few, length-select cs)) c.key false volume_features (among is)
            complete.volume (omega arith) (omega arith) in
        (some d, rw (is, made) refl, (within, tt))
    | inr other ↦ (none, rw other refl, tt)
  ]

  scores_for-Bounded :
      (c : Candidate) → Counted cs c → (s : ComponentScores) × (scores_for cs c ≡ ok s) × Bounded s
  unfolding scores_for
  scores_for-Bounded c counted =
      let there = counted.0 in
      let few = complete.few in
      let (m, m_made, m_in) =
        component-In cs few c.key false momentum_features there complete.momentum (omega arith)
          (omega arith) in
      let (t, t_made, t_in) =
        component-In cs few c.key false trend_features there complete.trend (omega arith)
          (omega arith) in
      let (k, k_made, k_in) =
        component-In cs few c.key false breakout_features there complete.breakout (omega arith)
          (omega arith) in
      let (p, p_made, p_in) =
        component-In cs few c.key false price_action_features there complete.price_action
          (omega arith) (omega arith) in
      let (y, y_made, y_in) =
        component-In cs few c.key true stability_features there complete.stability (omega arith)
          (omega arith) in
      let (v, v_made, v_in) = volume-In c counted in
      let active = (m, 25) ∷ (t, 25) ∷ (k, 20) ∷ (p, 10) ∷ (y, 10) ∷ volume_part v in
      (
        record {
          momentum = m;
          trend = t;
          breakout = k;
          price_action = p;
          stability = y;
          volume = v;
          overall = weighted_score active;
        },
        rw (m_made, t_made, k_made, p_made, y_made, v_made) refl,
        record {
          momentum = m_in;
          trend = t_in;
          breakout = k_in;
          price_action = p_in;
          stability = y_in;
          volume = v_in;
          overall =
              weighted_score-In active (m_in, (t_in, (k_in, (p_in, (y_in, v_in))))) (omega arith)
                (omega (arith, weights-volume_part v));
        },
      )

  calculate-Persisted :
      (ds : List Candidate)
      → AllCounted cs ds
      → (rs : List (ℕ × ComponentScores)) × (calculate_component_scores cs ds ≡ ok rs)
        × (map (λ r. r.0) rs ≡ map (λ d. d.key) ds)
        × AllPersisted rs
  unfolding calculate_component_scores
  calculate-Persisted [] a = ([], refl, refl, tt)
  calculate-Persisted (d ∷ ds) a =
      let (s, made, bounded) = scores_for-Bounded d a.0 in
      let (rs, later, keys, all) = calculate-Persisted ds a.1 in
      (
        (d.key, s) ∷ rs,
        rw (made, later) refl,
        ap (◌∷◌ d.key) keys,
        ((bounded, persisted_scores-ok s bounded), all),
      )

-- For a population of at most 10^30 items whose prices' features all have values, and whose volume
-- features have values on the ready items, calculate_component_scores returns scores for the items'
-- keys in their order; each component and the overall score is from 0 to 100 although every step
-- rounds to 38 digits, and _persisted_scores accepts each item's scores and keeps them from 0 to
-- 100.
pub calculate_component_scores_total :
    (population : List Candidate)
    → IsComplete population
    → (rs : List (ℕ × ComponentScores)) × (calculate_component_scores population population ≡ ok rs)
      × (map (λ r. r.0) rs ≡ map (λ c. c.key) population)
      × AllPersisted rs
calculate_component_scores_total population complete =
    calculate-Persisted population complete population
      (AllCounted-suffix population [] population refl)
