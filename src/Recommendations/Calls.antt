-- ===== src/Recommendations/Calls.antt =====
-- The outcomes of create (application/services/recommendation.py).
use auto_trading_v.Prelude.{
  ℕ, ◌≡◌, refl, ap, sym, or_raise, ◌⊎◌, inl, inr, false, Bool-cases, Option, none, some, List, [],
  ◌∷◌, ◌++◌, any, arith, Result, ok, raise, raise_if, >>=-eq-ok, map_error, map_error-eq-ok,
  Result-cases, ◌>>=◌, codes_eq, codes_eq_refl, codes_eq→eq, not, if◌then◌else◌,
}
use auto_trading_v.Text.{Text}
use auto_trading_v.Recommendations.{RecommendationInput}
use auto_trading_v.Recommendations.Content.{
  validate_generated_at, recommendation_key, recommendation_content_digest, Recommendation,
  new_recommendation,
}
use auto_trading_v.Recommendations.Service.{
  Tables, CreationError, validation_failed, RecommendationCreationResult, created, already_exists,
  get_by_id, get_by_recommendation_key, same_recommendation, validate_source, existing_result,
  resolve_unique_race, race_unresolved, Attempt, found, inserted, raced, attempt, conclude, create,
}

-- of results with tables
abbrev Same :
    Result CreationError RecommendationCreationResult × List Recommendation
    → Result CreationError RecommendationCreationResult × List Recommendation
    → Type 0
Same x y = x ≡ y

abbrev Option_cases : {A : Type 0} (o : Option A) → (o ≡ none) ⊎ ((a : A) × (o ≡ some a))
Option_cases none = inl refl
Option_cases (some a) = inr (a, refl)

existing_result-eq-ok :
    (existing : Recommendation) (digest : Text) {result : RecommendationCreationResult}
    → existing_result existing digest ≡ ok result
    → (existing.content_digest ≡ digest) × (result ≡ (already_exists, existing))
unfolding existing_result
existing_result-eq-ok existing digest h =
    let (u, same, h1) =
      >>=-eq-ok (raise_if (not (codes_eq existing.content_digest digest)) _) _ h in
    (codes_eq→eq existing.content_digest digest (ground (arith, same)), cc h1)

module _ (timestamp_text : ℕ → Text) (sha256 : Text → Text) where
  abbrev pub key_of : RecommendationInput → Text
  key_of i = recommendation_key sha256 i

  abbrev pub digest_of : RecommendationInput → Text
  digest_of i = recommendation_content_digest timestamp_text sha256 i

  -- The row that a call inserts.
  abbrev pub row_of : ℕ → ℕ → RecommendationInput → Recommendation
  row_of generated_at new_id i = record {
    recommendation_id = new_id;
    recommendation_key = key_of i;
    content_digest = digest_of i;
    recommendation_input = i;
    generated_at = generated_at;
  }

  new_recommendation-row_of :
      (generated_at new_id : ℕ) (i : RecommendationInput)
      → validate_generated_at i generated_at ≡ ok tt
      → new_recommendation timestamp_text sha256 (row_of generated_at new_id i)
        ≡ ok (row_of generated_at new_id i)
  unfolding new_recommendation
  new_recommendation-row_of generated_at new_id i h =
      rw (h, codes_eq_refl (key_of i), codes_eq_refl (digest_of i)) refl

  module _ (generated_at new_id : ℕ) (i : RecommendationInput) (seen : Tables)
      (at_insert : List Recommendation) where
    abbrev pub Accepted : Type 0
    Accepted =
        (validate_generated_at i generated_at ≡ ok tt)
        × (validate_source (get_by_id seen.feature_snapshots i.feature_snapshot_id) i generated_at
            ≡ ok tt)

    attempt-Accepted :
        {a : Attempt}
        → attempt timestamp_text sha256 generated_at new_id i seen at_insert ≡ ok a
        → Accepted
    unfolding attempt
    attempt-Accepted h =
        let (u, valid, h1) =
          >>=-eq-ok (map_error validation_failed (validate_generated_at i generated_at)) _ h in
        let (v, accepted, h2) =
          >>=-eq-ok
            (validate_source (get_by_id seen.feature_snapshots i.feature_snapshot_id) i
              generated_at)
            _ h1 in
        (map_error-eq-ok validation_failed _ valid, accepted)

    pub attempt-known :
        (existing : Recommendation)
        → Accepted
        → get_by_recommendation_key seen.recommendations (key_of i) ≡ some existing
        → attempt timestamp_text sha256 generated_at new_id i seen at_insert
          ≡ existing_result existing (digest_of i) >>= λ result. ok (found result)
    unfolding attempt
    attempt-known existing (valid, accepted) known = rw (valid, accepted, known) refl

    pub attempt-unknown :
        Accepted
        → get_by_recommendation_key seen.recommendations (key_of i) ≡ none
        → attempt timestamp_text sha256 generated_at new_id i seen at_insert ≡ (
            if any (same_recommendation (row_of generated_at new_id i)) at_insert
            then ok raced
            else ok (inserted (row_of generated_at new_id i)))
    unfolding attempt
    attempt-unknown (valid, accepted) unknown =
        rw (valid, accepted, unknown, new_recommendation-row_of generated_at new_id i valid) refl

    -- What holds of a call that reports a new row.
    pub record Inserted (at : List Recommendation) (r : Recommendation) (t : List Recommendation)
        : Type 0 where
      pub accepted : Accepted
      pub unknown : get_by_recommendation_key seen.recommendations (key_of i) ≡ none
      pub is_row : r ≡ row_of generated_at new_id i
      pub free : any (same_recommendation (row_of generated_at new_id i)) at ≡ false
      pub appended : t ≡ at ++ row_of generated_at new_id i ∷ []

    conclude-known :
        (later : List Recommendation) (existing : Recommendation) {r : Recommendation}
        {t : List Recommendation}
        → conclude timestamp_text sha256
            (existing_result existing (digest_of i) >>= λ result. ok (found result))
            i
            at_insert
            later
          ≡ (ok (created, r), t)
        → ⊥
    conclude-known later existing {r} {t} h =
        elim (Result-cases (existing_result existing (digest_of i))) [
          | inl (result, done) ↦
              let old = existing_result-eq-ok existing (digest_of i) done in
              let k : Same (ok result, at_insert) (ok (created, r), t) = rw done at h in
              ground (arith, k, old.1)
          | inr (e, failed) ↦
              let k : Same (raise e, at_insert) (ok (created, r), t) = rw failed at h in
              ground (arith, k)
        ]

    resolve-created :
        (later : List Recommendation) {r : Recommendation}
        → resolve_unique_race later (key_of i) (digest_of i) ≡ ok (created, r)
        → ⊥
    unfolding resolve_unique_race
    resolve-created later h =
        let (existing, known, h1) =
          >>=-eq-ok (or_raise (get_by_recommendation_key later (key_of i)) race_unresolved) _ h in
        let old = existing_result-eq-ok existing (digest_of i) h1 in ground (arith, old.1)

    pub create-Inserted :
        (later : List Recommendation) {r : Recommendation} {t : List Recommendation}
        → create timestamp_text sha256 generated_at new_id i seen at_insert later
          ≡ (ok (created, r), t)
        → Inserted at_insert r t
    unfolding create
    create-Inserted later {r} {t} h =
        elim (Result-cases (attempt timestamp_text sha256 generated_at new_id i seen at_insert)) [
          | inr (e, failed) ↦
              let k : Same (raise e, at_insert) (ok (created, r), t) = rw failed at h in
              absurd (ground (arith, k))
          | inl (a, done) ↦ by_read (attempt-Accepted done)
        ]
      where
        by_read : Accepted → Inserted at_insert r t
        by_read accepted =
            elim (Option_cases (get_by_recommendation_key seen.recommendations (key_of i))) [
              | inr (existing, known) ↦
                  absurd (
                    conclude-known later existing (rw (attempt-known existing accepted known) at h))
              | inl unknown ↦
                  elim (Bool-cases
                    (any (same_recommendation (row_of generated_at new_id i)) at_insert)) [
                      | inl taken ↦
                          let k : Same (resolve_unique_race later (key_of i) (digest_of i), later)
                              (ok (created, r), t) =
                            rw (attempt-unknown accepted unknown, taken) at h in
                          absurd (resolve-created later (ap (λ x. x.0) k))
                      | inr free ↦
                          let k : Same
                              (
                                ok (created, row_of generated_at new_id i),
                                at_insert ++ row_of generated_at new_id i ∷ [],
                              )
                              (ok (created, r), t) =
                            rw (attempt-unknown accepted unknown, free) at h in
                          record {
                            accepted = accepted;
                            unknown = unknown;
                            is_row = cc k;
                            free = free;
                            appended = sym (ap (λ x. x.1) k);
                          }
                    ]
            ]
