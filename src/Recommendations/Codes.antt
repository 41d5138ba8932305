-- ===== src/Recommendations/Codes.antt =====
-- canonical_codes (domain/recommendations/codes.py).
use auto_trading_v.Prelude.{
  sym, Result, raise, ◌≡◌, refl, ◌∙◌, inl, inr, Bool, true, false, Bool-cases, not, ◌||◌, List, [],
  ◌∷◌, all, arith, codes_eq, codes_eq_refl, codes_eq→eq, ◌≢◌, ok, raise_if, >>=-eq-ok, ok-injective,
  subst,
}
use auto_trading_v.Text.{Text}
use auto_trading_v.Strategies.{is_reason_code, contains}
use auto_trading_v.Scoring.Ranks.{insert_sorted, sorted, text_lt}
use auto_trading_v.Recommendations.{
  RecommendationError, is_repeated, canonical_codes, code_invalid, code_repeated,
}
use auto_trading_v.Recommendations.Order.{
  sorted-IsOrdered, any-insert, any-sorted, all-sorted, IsOrdered, sorted_ordered,
  text_lt-asymmetric, text_lt-total,
}

codes_eq_sym : (xs ys : Text) → codes_eq xs ys ≡ codes_eq ys xs
unfolding codes_eq
codes_eq_sym [] [] = refl
codes_eq_sym [] (y ∷ ys) = refl
codes_eq_sym (x ∷ xs) [] = refl
codes_eq_sym (x ∷ xs) (y ∷ ys) = ground (arith, codes_eq_sym xs ys)

is_repeated-insert :
    (x : Text) (l : List Text)
    → is_repeated (insert_sorted text_lt x l) ≡ (contains x l || is_repeated l)
unfolding insert_sorted
is_repeated-insert x [] = refl
is_repeated-insert x (y ∷ ys) =
    ground (arith, is_repeated-insert x ys, any-insert text_lt (codes_eq y) x ys, codes_eq_sym x y)

is_repeated-sorted : (l : List Text) → is_repeated (sorted text_lt l) ≡ is_repeated l
unfolding sorted
is_repeated-sorted [] = refl
is_repeated-sorted (x ∷ xs) =
    is_repeated-insert x (sorted text_lt xs)
    ∙ rw (any-sorted text_lt (codes_eq x) xs, is_repeated-sorted xs)

-- The returned codes are the list's, and are returned again.
canonical_codes_again :
    (values : List Text) {out : List Text}
    → canonical_codes values ≡ ok out
    → (canonical_codes out ≡ ok out) × ((c : Text) → contains c out ≡ contains c values)
unfolding canonical_codes
canonical_codes_again values {out} h =
    let (u, valid, h1) = >>=-eq-ok (raise_if (not (all is_reason_code values)) code_invalid) _ h in
    let (v, single, h2) = >>=-eq-ok (raise_if (is_repeated values) code_repeated) _ h1 in
    let result : sorted text_lt values ≡ out = ok-injective h2 in
    subst (λ l. (canonical_codes l ≡ ok l) × ((c : Text) → contains c l ≡ contains c values)) result
      (
        rw
            (
              all-sorted text_lt is_reason_code values,
              is_repeated-sorted values,
              valid,
              single,
              sorted_ordered text_lt (sorted text_lt values)
                  (sorted-IsOrdered text_lt text_lt-asymmetric values),
            )
            refl,
        λ c. any-sorted text_lt (codes_eq c) values,
      )

-- No code stands twice in a list.
abbrev pub AllDiffer : Text → List Text → Type 0
AllDiffer c [] = Unit
AllDiffer c (d ∷ ds) = (c ≢ d) × AllDiffer c ds

abbrev pub IsDistinct : List Text → Type 0
IsDistinct [] = Unit
IsDistinct (c ∷ cs) = AllDiffer c cs × IsDistinct cs

-- Every code stands before the next one in the order of texts.
abbrev pub IsAscending : List Text → Type 0
IsAscending [] = Unit
IsAscending (c ∷ []) = Unit
IsAscending (c ∷ d ∷ ds) = (text_lt c d ≡ true) × IsAscending (d ∷ ds)

-- How canonical_codes ends.
pub data CodesOutcome (values : List Text) (r : Result RecommendationError (List Text))
    : Type 0 where
  invalid :
      (c : Text)
      → contains c values ≡ true
      → is_reason_code c ≡ false
      → r ≡ raise code_invalid
      → CodesOutcome values r
  repeated :
      ((c : Text) → contains c values ≡ true → is_reason_code c ≡ true)
      → ¬ IsDistinct values
      → r ≡ raise code_repeated
      → CodesOutcome values r
  canonical :
      (out : List Text)
      → ((c : Text) → contains c values ≡ true → is_reason_code c ≡ true)
      → IsDistinct values
      → IsAscending out
      → ((c : Text) → contains c out ≡ contains c values)
      → canonical_codes out ≡ ok out
      → r ≡ ok out
      → CodesOutcome values r

all-member :
    (p : Text → Bool) (cs : List Text) (c : Text)
    → all p cs ≡ true
    → contains c cs ≡ true
    → p c ≡ true
all-member p (d ∷ ds) c h k = elim (Bool-cases (codes_eq c d)) [
  | inl same ↦ subst (λ x. p x ≡ true) (sym (codes_eq→eq c d same)) (ground (arith, h))
  | inr other ↦ all-member p ds c (ground (arith, h)) (rw other at k)
]
all-member p [] c h k = absurd (ground (arith, k))

some-member :
    (p : Text → Bool) (cs : List Text)
    → all p cs ≡ false
    → (c : Text) × (contains c cs ≡ true) × (p c ≡ false)
some-member p [] h = absurd (ground (arith, h))
some-member p (d ∷ ds) h = elim (Bool-cases (p d)) [
  | inl good ↦
      let (c, there, bad) = some-member p ds (rw good at h) in (c, ground (arith, there), bad)
  | inr bad ↦ (d, rw (codes_eq_refl d) refl, bad)
]

contains-AllDiffer : (c : Text) (cs : List Text) → contains c cs ≡ false → AllDiffer c cs
contains-AllDiffer c [] h = tt
contains-AllDiffer c (d ∷ ds) h = (
  λ e.
      absurd
        (let same : codes_eq c d ≡ true = rw (sym e) (codes_eq_refl c) in ground (arith, h, same)),
  contains-AllDiffer c ds (ground (arith, h)),
)

AllDiffer-contains : (c : Text) (cs : List Text) → AllDiffer c cs → contains c cs ≡ false
AllDiffer-contains c [] a = refl
AllDiffer-contains c (d ∷ ds) a = elim (Bool-cases (codes_eq c d)) [
  | inl same ↦ absurd (a.0 (codes_eq→eq c d same))
  | inr other ↦ rw other (AllDiffer-contains c ds a.1)
]

is_repeated-IsDistinct : (cs : List Text) → is_repeated cs ≡ false → IsDistinct cs
is_repeated-IsDistinct [] h = tt
is_repeated-IsDistinct (c ∷ cs) h =
    (contains-AllDiffer c cs (ground (arith, h)), is_repeated-IsDistinct cs (ground (arith, h)))

IsDistinct-is_repeated : (cs : List Text) → IsDistinct cs → is_repeated cs ≡ false
IsDistinct-is_repeated [] d = refl
IsDistinct-is_repeated (c ∷ cs) d =
    rw (AllDiffer-contains c cs d.0, IsDistinct-is_repeated cs d.1) refl

ordered-IsAscending : (cs : List Text) → IsOrdered text_lt cs → IsDistinct cs → IsAscending cs
ordered-IsAscending [] o d = tt
ordered-IsAscending (c ∷ []) o d = tt
ordered-IsAscending (c ∷ e ∷ es) o d = (
  elim (Bool-cases (text_lt c e)) [
    | inl before ↦ before
    | inr not_before ↦ absurd (d.0.0 (text_lt-total c e not_before o.0))
  ],
  ordered-IsAscending (e ∷ es) o.1 d.1,
)

-- canonical_codes ends in exactly one of three ways for a list of codes: it raises the error of the
-- format when some code does not match the pattern; it raises the error of a repeated code when all
-- match and the codes are not pairwise different; and when all match and are pairwise different it
-- returns a list that holds exactly these codes, each before the next one in the order of texts,
-- and returns that list again when it is given it.
pub canonical_codes-CodesOutcome :
    (values : List Text) → CodesOutcome values (canonical_codes values)
unfolding canonical_codes
canonical_codes-CodesOutcome values = elim (Bool-cases (all is_reason_code values)) [
  | inr bad ↦
      let (c, there, wrong) = some-member is_reason_code values bad in
      invalid c there wrong (rw bad refl)
  | inl good ↦ elim (Bool-cases (is_repeated values)) [
    | inl twice ↦
        repeated (λ c. all-member is_reason_code values c good)
          (λ d. let once = IsDistinct-is_repeated values d in ground (arith, once, twice))
          (rw (good, twice) refl)
    | inr once ↦
        let made : canonical_codes values ≡ ok (sorted text_lt values) = rw (good, once) refl in
        let (again, same) = canonical_codes_again values made in
        canonical (sorted text_lt values) (λ c. all-member is_reason_code values c good)
          (is_repeated-IsDistinct values once)
          (ordered-IsAscending (sorted text_lt values)
            (sorted-IsOrdered text_lt text_lt-asymmetric values)
            (is_repeated-IsDistinct (sorted text_lt values) (is_repeated-sorted values ∙ once)))
          same again made
  ]
]
