-- ===== src/Recommendations/Tables.antt =====
-- The rows that create (application/services/recommendation.py) leaves.
use mathlib.Core.List.{append_assoc, append-nil}
use auto_trading_v.Prelude.{
  ℕ, ◌≡◌, refl, ap, sym, ◌∙◌, inl, inr, false, List, [], ◌∷◌, ◌++◌, any, Result, ok, Result-cases,
  subst,
}
use auto_trading_v.Text.{Text}
use auto_trading_v.Recommendations.{RecommendationInput}
use auto_trading_v.Recommendations.Content.{Recommendation, validate_generated_at}
use auto_trading_v.Recommendations.Service.{
  Tables, CreationError, RecommendationCreationResult, created, found, inserted, raced, Attempt,
  same_recommendation, attempt, conclude, create,
}
use auto_trading_v.Recommendations.Calls.{key_of, digest_of, row_of, create-Inserted}

-- No row of the second list has a unique key of a row before it.
abbrev pub AllUnlike : List Recommendation → List Recommendation → Type 0
AllUnlike before [] = Unit
AllUnlike before (q ∷ qs) =
    (any (same_recommendation q) before ≡ false) × AllUnlike (before ++ q ∷ []) qs

AllUnlike-append :
    (r : Recommendation) (before qs : List Recommendation)
    → AllUnlike before qs
    → any (same_recommendation r) (before ++ qs) ≡ false
    → AllUnlike before (qs ++ r ∷ [])
AllUnlike-append r before [] a free =
    let same : any (same_recommendation r) before ≡ false = rw append-nil at free in (same, tt)
AllUnlike-append r before (q ∷ qs) a free =
    (a.0, AllUnlike-append r (before ++ q ∷ []) qs a.1 (rw (append_assoc before (q ∷ []) qs) free))

module _ (timestamp_text : ℕ → Text) (sha256 : Text → Text) where
  -- A row has the key and the digest of its input, and its plan was valid when it was generated.
  pub record IsSound (q : Recommendation) : Type 0 where
    pub key : q.recommendation_key ≡ key_of timestamp_text sha256 q.recommendation_input
    pub digest : q.content_digest ≡ digest_of timestamp_text sha256 q.recommendation_input
    pub valid : validate_generated_at q.recommendation_input q.generated_at ≡ ok tt

  abbrev pub AllSound : List Recommendation → Type 0
  AllSound [] = Unit
  AllSound (q ∷ qs) = IsSound q × AllSound qs

  abbrev pub IsStored : List Recommendation → Type 0
  IsStored table = AllUnlike [] table × AllSound table

  AllSound-append :
      (qs : List Recommendation) (r : Recommendation)
      → AllSound qs
      → IsSound r
      → AllSound (qs ++ r ∷ [])
  AllSound-append [] r a h = (h, tt)
  AllSound-append (q ∷ qs) r a h = (a.0, AllSound-append qs r a.1 h)

  module _ (generated_at new_id : ℕ) (i : RecommendationInput) (seen : Tables)
      (at_insert later : List Recommendation) where
    abbrev step :
        Result CreationError Attempt
        → Result CreationError RecommendationCreationResult × List Recommendation
    step a = conclude timestamp_text sha256 a i at_insert later

    -- Whatever create returns or raises, and whatever other rows its insert and its second
    -- transaction meet, if in those rows no unique key is repeated and every row has the key and
    -- the digest of its input and a plan still valid when it was generated, then the same holds of
    -- the rows afterwards.
    pub create-IsStored :
        {x : Result CreationError RecommendationCreationResult} {t : List Recommendation}
        → IsStored at_insert
        → IsStored later
        → create timestamp_text sha256 generated_at new_id i seen at_insert later ≡ (x, t)
        → IsStored t
    unfolding create
    create-IsStored {x} {t} before other h =
        elim (Result-cases (attempt timestamp_text sha256 generated_at new_id i seen at_insert)) [
          | inr (e, failed) ↦ subst IsStored (ap (λ p. p.1) (sym (ap step failed) ∙ h)) before
          | inl (a, done) ↦ by_end a done
        ]
      where
        by_end :
            (a : Attempt)
            → attempt timestamp_text sha256 generated_at new_id i seen at_insert ≡ ok a
            → IsStored t
        by_end (found result) done = subst IsStored (ap (λ p. p.1) (sym (ap step done) ∙ h)) before
        by_end raced done = subst IsStored (ap (λ p. p.1) (sym (ap step done) ∙ h)) other
        by_end (inserted r) done =
            let reported : create timestamp_text sha256 generated_at new_id i seen at_insert later
                ≡ (ok (created, r), at_insert ++ r ∷ []) =
              ap step done in
            let c =
              create-Inserted timestamp_text sha256 generated_at new_id i seen at_insert later
                reported in
            let row = row_of timestamp_text sha256 generated_at new_id i in
            let stored : IsStored (at_insert ++ row ∷ []) = (
              AllUnlike-append row [] at_insert before.0 c.free,
              AllSound-append at_insert row before.1
                  (record { key = refl; digest = refl; valid = c.accepted.0 }),
            ) in
            subst IsStored (sym c.appended ∙ ap (λ p. p.1) (sym reported ∙ h)) stored
