-- ===== src/Scoring/Averages.antt =====
-- Percentiles and component scores (domain/feature_scoring/scoring.py: _component) of a population whose
-- items have values.
use auto_trading_v.Prelude.{
  ℕ, suc, ◌≤◌, ◌≡◌, refl, ap, ◌∙◌, Bool, true, false, some, List, [], ◌∷◌, any, length, arith, ◌==◌,
  ok, if◌then◌else◌,
}
use auto_trading_v.Decimals.{Decimal, of_ℕ, sub}
use auto_trading_v.Decimals.Intervals.{In, of_ℕ-In, sub-In}
use auto_trading_v.Scoring.{
  Feature, Candidate, values_of, percentile_of, percentiles_of, ascending_midrank_percentiles,
  average_of_100, component,
}
use auto_trading_v.Scoring.Percentiles.{
  most, has_key, has_key-percentiles, percentiles-AllIn, found-In,
}
use auto_trading_v.Scoring.Components.{AllWithin, average_of_100-In}

-- Every item has a value for the feature.
abbrev pub AllValued : Feature → List Candidate → Type 0
AllValued f [] = Unit
AllValued f (c ∷ cs) = ((v : Decimal) × (c.values f ≡ some v)) × AllValued f cs

abbrev pub AllFeatures : List Feature → List Candidate → Type 0
AllFeatures [] cs = Unit
AllFeatures (f ∷ fs) cs = AllValued f cs × AllFeatures fs cs

abbrev pub has_item : ℕ → List Candidate → Bool
has_item k cs = any (λ c. c.key == k) cs

pub values_of-ok :
    (f : Feature) (cs : List Candidate)
    → AllValued f cs
    → (vs : List (ℕ × Decimal)) × (values_of f cs ≡ ok vs)
      × (length vs ≡ length cs)
      × ((k : ℕ) → has_key k vs ≡ has_item k cs)
unfolding values_of
values_of-ok f [] a = ([], refl, refl, λ k. refl)
values_of-ok f (c ∷ cs) a =
    let (v, is) = a.0 in
    let (vs, made, same, keys) = values_of-ok f cs a.1 in
    ((c.key, v) ∷ vs, rw (is, made) refl, ap suc same, λ k. rw (keys k) refl)

module _ (cs : List Candidate) (few : length cs ≤ most) where
  pub percentile_of-In :
      (k : ℕ) (f : Feature)
      → has_item k cs ≡ true
      → AllValued f cs
      → (p : Decimal) × (percentile_of cs k f ≡ ok p) × In 0 1 p
  unfolding percentile_of
  percentile_of-In k f there a =
      let (vs, made, same, keys) = values_of-ok f cs a in
      let (e, found, within) =
        found-In k (ascending_midrank_percentiles vs) (percentiles-AllIn vs (omega (arith, same)))
          (has_key-percentiles k vs ∙ keys k ∙ there) in
      (e.1, rw (made, found) refl, within)

  pub percentiles_of-In :
      (k : ℕ) (reverse : Bool) (fs : List Feature)
      → has_item k cs ≡ true
      → AllFeatures fs cs
      → (ps : List Decimal) × (percentiles_of cs k reverse fs ≡ ok ps)
        × (length ps ≡ length fs)
        × AllWithin 1 ps
  unfolding percentiles_of
  percentiles_of-In k reverse [] there a = ([], refl, refl, tt)
  percentiles_of-In k reverse (f ∷ fs) there a =
      let (p, made, within) = percentile_of-In k f there a.0 in
      let (ps, later, same, all) = percentiles_of-In k reverse fs there a.1 in
      (
        (if reverse then sub 38 (of_ℕ 1) p else p) ∷ ps,
        rw (made, later) refl,
        ap suc same,
        (turned reverse p within, all),
      )
    where
      turned :
          (reverse : Bool) (p : Decimal)
          → In 0 1 p
          → In 0 1 (if reverse then sub 38 (of_ℕ 1) p else p)
      turned true p h = sub-In 38 (of_ℕ 1) p 1 1 0 1 (of_ℕ-In 1) h (omega arith) (omega arith)
      turned false p h = h

  pub component-In :
      (k : ℕ) (reverse : Bool) (fs : List Feature)
      → has_item k cs ≡ true
      → AllFeatures fs cs
      → 1 ≤ length fs
      → length fs ≤ most
      → (d : Decimal) × (component cs k reverse fs ≡ ok d) × In 0 100 d
  unfolding component
  component-In k reverse fs there a some_left short =
      let (ps, made, same, all) = percentiles_of-In k reverse fs there a in
      (
        average_of_100 ps,
        rw made refl,
        average_of_100-In ps all (omega (arith, same)) (omega (arith, same)),
      )
