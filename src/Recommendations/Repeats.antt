-- ===== src/Recommendations/Repeats.antt =====
-- Further calls of create (application/services/recommendation.py) for a key that is stored.
use auto_trading_v.Prelude.{
  ℕ, ◌≡◌, ◌≢◌, codes_eq→eq, refl, ap, sym, ◌∙◌, ◌⊎◌, inl, inr, true, false, Bool-cases, none, some,
  List, [], ◌∷◌, ◌++◌, any, any-append, find_first-append_last, arith, Result, ok, raise, ◌>>=◌,
  codes_eq, codes_eq_refl,
}
use auto_trading_v.Text.{Text}
use auto_trading_v.Recommendations.{RecommendationInput}
use auto_trading_v.Recommendations.Content.{Recommendation}
use auto_trading_v.Recommendations.Service.{
  already_exists, recommendation_conflict, Tables, CreationError, RecommendationCreationResult,
  created, get_by_recommendation_key, same_recommendation, existing_result, resolve_unique_race,
  found, conclude, create,
}
use auto_trading_v.Recommendations.Calls.{
  key_of, digest_of, row_of, Accepted, attempt-known, attempt-unknown, create-Inserted,
}

same_recommendation-key :
    (r q : Recommendation)
    → same_recommendation r q ≡ false
    → codes_eq q.recommendation_key r.recommendation_key ≡ false
unfolding same_recommendation
same_recommendation-key r q h = ground (arith, h)

get_by_recommendation_key-free :
    (r : Recommendation) (table : List Recommendation)
    → any (same_recommendation r) table ≡ false
    → get_by_recommendation_key table r.recommendation_key ≡ none
unfolding get_by_recommendation_key
get_by_recommendation_key-free r [] h = refl
get_by_recommendation_key-free r (q ∷ qs) h = elim (Bool-cases (same_recommendation r q)) [
  | inl same ↦ absurd (ground (arith, h, same))
  | inr other ↦
      let later : any (same_recommendation r) qs ≡ false = rw other at h in
      rw (same_recommendation-key r q other) (get_by_recommendation_key-free r qs later)
]

get_by_recommendation_key-stored :
    (r : Recommendation) (table : List Recommendation)
    → any (same_recommendation r) table ≡ false
    → get_by_recommendation_key (table ++ r ∷ []) r.recommendation_key ≡ some r
unfolding get_by_recommendation_key
get_by_recommendation_key-stored r table h =
    find_first-append_last (λ q. codes_eq q.recommendation_key r.recommendation_key) table r
      (get_by_recommendation_key-free r table h) (codes_eq_refl r.recommendation_key)

any-same :
    (r q : Recommendation) (table : List Recommendation)
    → r.recommendation_key ≡ q.recommendation_key
    → any (same_recommendation q) (table ++ r ∷ []) ≡ true
unfolding same_recommendation
any-same r q table e =
    let equal : codes_eq r.recommendation_key q.recommendation_key ≡ true =
      rw e (codes_eq_refl q.recommendation_key) in
    any-append (same_recommendation q) table (r ∷ []) ∙ ground (arith, equal)

module _ (timestamp_text : ℕ → Text) (sha256 : Text → Text) where
  conclude-existing :
      (x : Result CreationError RecommendationCreationResult) (i : RecommendationInput)
      (at_insert later : List Recommendation)
      → conclude timestamp_text sha256 (x >>= λ result. ok (found result)) i at_insert later
        ≡ (x, at_insert)
  conclude-existing (ok result) i at_insert later = refl
  conclude-existing (raise e) i at_insert later = refl

  -- as _existing_result answers for the stored row
  create-existing_result :
      (now now' new_id other_id : ℕ) (i j : RecommendationInput) (seen seen' : Tables)
      (at_insert later : List Recommendation) {r : Recommendation} {t : List Recommendation}
      → create timestamp_text sha256 now new_id i seen at_insert later ≡ (ok (created, r), t)
      → key_of timestamp_text sha256 j ≡ key_of timestamp_text sha256 i
      → Accepted timestamp_text sha256 now' other_id j seen' t
      → (seen'.recommendations ≡ t)
        ⊎ (get_by_recommendation_key seen'.recommendations (key_of timestamp_text sha256 j) ≡ none)
      → create timestamp_text sha256 now' other_id j seen' t t
        ≡ (existing_result r (digest_of timestamp_text sha256 j), t)
  unfolding create resolve_unique_race
  create-existing_result now now' new_id other_id i j seen seen' at_insert later {r} {t} h same
        accepted read =
      let c = create-Inserted timestamp_text sha256 now new_id i seen at_insert later h in
      let row = row_of timestamp_text sha256 now new_id i in
      let stored : get_by_recommendation_key t (key_of timestamp_text sha256 j) ≡ some r =
        rw (c.appended, c.is_row, same) (get_by_recommendation_key-stored row at_insert c.free) in
      elim read [
        | inl after ↦
            rw
              (attempt-known timestamp_text sha256 now' other_id j seen' t r accepted (
                ap (λ l. get_by_recommendation_key l (key_of timestamp_text sha256 j)) after
                ∙ stored))
              (conclude-existing (existing_result r (digest_of timestamp_text sha256 j)) j t t)
        | inr unknown ↦
            let taken : any (same_recommendation (row_of timestamp_text sha256 now' other_id j)) t
                ≡ true =
              rw c.appended (
                any-same row (row_of timestamp_text sha256 now' other_id j) at_insert (sym same)) in
            rw
              (
                attempt-unknown timestamp_text sha256 now' other_id j seen' t accepted unknown,
                taken,
                stored,
              )
              refl
      ]

  -- When create has stored a new recommendation, any further call on the rows that it left, for an
  -- input with the same key and whose checks of time and source pass, leaves the rows as they are:
  -- when the digests of the two inputs' contents are equal it returns the stored recommendation as
  -- already existing, and when they differ it raises the conflict with the key. This holds whether
  -- the further call reads the stored row or had read the tables before it was stored and lost the
  -- race at its insert.
  pub create_again :
      (now now' new_id other_id : ℕ) (i j : RecommendationInput) (seen seen' : Tables)
      (at_insert later : List Recommendation) {r : Recommendation} {t : List Recommendation}
      → create timestamp_text sha256 now new_id i seen at_insert later ≡ (ok (created, r), t)
      → key_of timestamp_text sha256 j ≡ key_of timestamp_text sha256 i
      → Accepted timestamp_text sha256 now' other_id j seen' t
      → (seen'.recommendations ≡ t)
        ⊎ (get_by_recommendation_key seen'.recommendations (key_of timestamp_text sha256 j) ≡ none)
      → (digest_of timestamp_text sha256 j ≡ digest_of timestamp_text sha256 i)
          × (create timestamp_text sha256 now' other_id j seen' t t ≡ (ok (already_exists, r), t))
        ⊎ (digest_of timestamp_text sha256 j ≢ digest_of timestamp_text sha256 i)
          × (create timestamp_text sha256 now' other_id j seen' t t
              ≡ (raise (recommendation_conflict (key_of timestamp_text sha256 i)), t))
  unfolding existing_result
  create_again now now' new_id other_id i j seen seen' at_insert later {r} {t} h same accepted
        read =
      let c = create-Inserted timestamp_text sha256 now new_id i seen at_insert later h in
      let answer =
        create-existing_result now now' new_id other_id i j seen seen' at_insert later h same
          accepted read in
      let stored : r.content_digest ≡ digest_of timestamp_text sha256 i =
        ap (λ q. q.content_digest) c.is_row in
      let key : r.recommendation_key ≡ key_of timestamp_text sha256 i =
        ap (λ q. q.recommendation_key) c.is_row in
      elim (Bool-cases (codes_eq r.content_digest (digest_of timestamp_text sha256 j))) [
        | inl equal ↦ inl (sym (codes_eq→eq _ _ equal) ∙ stored, answer ∙ rw equal refl)
        | inr other ↦ inr (
          λ e. absurd (
              let differ : codes_eq (digest_of timestamp_text sha256 i)
                    (digest_of timestamp_text sha256 i)
                  ≡ false =
                rw (stored, e) at other in
              ground (arith, differ, codes_eq_refl (digest_of timestamp_text sha256 i))),
          answer ∙ rw (other, key) refl,
        )
      ]
