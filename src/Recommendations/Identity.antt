-- ===== src/Recommendations/Identity.antt =====
-- The text that recommendation_key (domain/recommendations/models.py) hashes.
use mathlib.Core.List.{append_assoc}
use auto_trading_v.Prelude.{
  ℕ, zero, suc, ◌/◌, ◌%◌, ◌^◌, ◌≡◌, refl, ap, sym, ◌∙◌, Bool, true, not, [], ◌∷◌, ◌++◌, all, arith,
  ◌==◌, ◌&&◌, ok, ◌||◌, is_some, ok-injective, subst, >>=-eq-ok, raise_if,
}
use auto_trading_v.Text.{Text, codes, digit, hex, uuid_text}
use auto_trading_v.Recommendations.{
  RecommendationInput, is_generator_code, is_generator_char, normalize_generator_code, new_input,
  generator_code_invalid, actionable, is_market_risk, plan_missing, plan_not_allowed,
  canonical_codes, reason_codes_missing, risk_codes_missing, invalidation_codes_missing,
  invalidation_codes_not_allowed,
}
use auto_trading_v.Strategies.{is_empty}
use auto_trading_v.Sessions.{drop_spaces, reverse}
use auto_trading_v.Recommendations.Content.{quoted, json_object, identity_text, recommendation_key}

-- No quotation mark in a text.
abbrev is_plain : Text → Bool
is_plain t = all (λ c. not (c == 34)) t

-- What stands before the first quotation mark.
before_quote :
    (xs ys r s : Text)
    → is_plain xs ≡ true
    → is_plain ys ≡ true
    → xs ++ 34 ∷ r ≡ ys ++ 34 ∷ s
    → (xs ≡ ys) × (r ≡ s)
before_quote [] [] r s p q h = (refl, cc h)
before_quote [] (y ∷ ys) r s p q h = let e : y ≡ 34 = cc h in absurd (ground (arith, e, q))
before_quote (x ∷ xs) [] r s p q h = let e : x ≡ 34 = cc h in absurd (ground (arith, e, p))
before_quote (x ∷ xs) (y ∷ ys) r s p q h =
    let head : x ≡ y = cc h in
    let tail : xs ++ 34 ∷ r ≡ ys ++ 34 ∷ s = cc h in
    let (same, rest) = before_quote xs ys r s (ground (arith, p)) (ground (arith, q)) tail in
    (cc (head, same), rest)

after_prefix : (p xs ys : Text) → p ++ xs ≡ p ++ ys → xs ≡ ys
after_prefix [] xs ys h = h
after_prefix (c ∷ p) xs ys h = after_prefix p xs ys (cc h)

plain-append : (xs ys : Text) → is_plain xs ≡ true → is_plain ys ≡ true → is_plain (xs ++ ys) ≡ true
plain-append [] ys h k = k
plain-append (x ∷ xs) ys h k = ground (arith, plain-append xs ys)

digit-plain : (n : ℕ) → is_plain (digit n ∷ []) ≡ true
unfolding digit
digit-plain n = ground arith

hex-plain : (k n : ℕ) → is_plain (hex k n) ≡ true
unfolding hex
hex-plain zero n = refl
hex-plain (suc k) n =
    plain-append (hex k (n / 16)) (digit (n % 16) ∷ []) (hex-plain k (n / 16))
      (digit-plain (n % 16))

dashes-plain :
    (a b c d e : Text)
    → is_plain a ≡ true
    → is_plain b ≡ true
    → is_plain c ≡ true
    → is_plain d ≡ true
    → is_plain e ≡ true
    → is_plain (a ++ b'-' ∷ (b ++ b'-' ∷ (c ++ b'-' ∷ (d ++ b'-' ∷ e)))) ≡ true
dashes-plain a b c d e pa pb pc pd pe =
    plain-append a (b'-' ∷ (b ++ b'-' ∷ (c ++ b'-' ∷ (d ++ b'-' ∷ e)))) pa (
      plain-append b (b'-' ∷ (c ++ b'-' ∷ (d ++ b'-' ∷ e))) pb
        (plain-append c (b'-' ∷ (d ++ b'-' ∷ e)) pc (plain-append d (b'-' ∷ e) pd pe)))

uuid_text-plain : (u : ℕ) → is_plain (uuid_text u) ≡ true
unfolding uuid_text
uuid_text-plain u =
    dashes-plain (hex 8 (u / 16 ^ 24)) (hex 4 (u / 16 ^ 20)) (hex 4 (u / 16 ^ 16))
      (hex 4 (u / 16 ^ 12)) (hex 12 u) (hex-plain 8 (u / 16 ^ 24)) (hex-plain 4 (u / 16 ^ 20))
      (hex-plain 4 (u / 16 ^ 16)) (hex-plain 4 (u / 16 ^ 12)) (hex-plain 12 u)

chars-plain : (cs : Text) → all is_generator_char cs ≡ true → is_plain cs ≡ true
chars-plain [] h = refl
chars-plain (c ∷ cs) h = ground (arith, h, chars-plain cs)

generator_code-plain : (t : Text) → is_generator_code t ≡ true → is_plain t ≡ true
unfolding is_generator_code
generator_code-plain [] h = refl
generator_code-plain (c ∷ cs) h = ground (arith, h, chars-plain cs)

-- The texts of an object with three quoted members, in the pieces that its quotation marks make.
abbrev pieces : Text → Text → Text → Text
pieces u c v =
    codes "{\"feature_snapshot_id\":\""
    ++ (u
        ++ 34
          ∷ (codes ",\"generator_code\":\""
              ++ (c ++ 34 ∷ (codes ",\"generator_version\":\"" ++ (v ++ 34 ∷ codes "}")))))

object-pieces :
    (u c v : Text)
    → json_object (
        (codes "feature_snapshot_id", quoted u)
        ∷ (codes "generator_code", quoted c)
        ∷ (codes "generator_version", quoted v)
        ∷ [])
      ≡ pieces u c v
object-pieces u c v = simp append_assoc

identity_text-pieces :
    (i : RecommendationInput)
    → identity_text i
      ≡ pieces (uuid_text i.feature_snapshot_id) i.generator_code i.generator_version
unfolding identity_text
identity_text-pieces i =
    object-pieces (uuid_text i.feature_snapshot_id) i.generator_code i.generator_version

pieces-injective :
    (u c v u' c' v' : Text)
    → is_plain u ≡ true
    → is_plain u' ≡ true
    → is_plain c ≡ true
    → is_plain c' ≡ true
    → is_plain v ≡ true
    → is_plain v' ≡ true
    → pieces u c v ≡ pieces u' c' v'
    → (u ≡ u') × (c ≡ c') × (v ≡ v')
pieces-injective u c v u' c' v' pu pu' pc pc' pv pv' h =
    let start = after_prefix (codes "{\"feature_snapshot_id\":\"") _ _ h in
    let (same_u, rest) = before_quote u u' _ _ pu pu' start in
    let (same_c, more) =
      before_quote c c' _ _ pc pc' (after_prefix (codes ",\"generator_code\":\"") _ _ rest) in
    let (same_v, last) =
      before_quote v v' _ _ pv pv' (after_prefix (codes ",\"generator_version\":\"") _ _ more) in
    (same_u, same_c, same_v)

normalize_generator_code-plain :
    (value : Text) {t : Text} → normalize_generator_code value ≡ ok t → is_plain t ≡ true
unfolding normalize_generator_code
normalize_generator_code-plain value {t} h =
    let (u, valid, h1) =
      >>=-eq-ok
        (raise_if (not (is_generator_code (reverse (drop_spaces (reverse (drop_spaces value))))))
          generator_code_invalid)
        _ h in
    let same : reverse (drop_spaces (reverse (drop_spaces value))) ≡ t = ok-injective h1 in
    generator_code-plain t (subst (λ x. is_generator_code x ≡ true) same (ground (arith, valid)))

-- of inputs that passed their checks
new_input-plain :
    (raw : RecommendationInput) {i : RecommendationInput}
    → new_input raw ≡ ok i
    → (is_plain i.generator_code ≡ true) × (is_plain i.generator_version ≡ true)
unfolding new_input
new_input-plain raw {i} h =
    let (code, coded, h1) = >>=-eq-ok (normalize_generator_code raw.generator_code) _ h in
    let (version, versioned, h2) =
      >>=-eq-ok (normalize_generator_code raw.generator_version) _ h1 in
    let (_, _, h3) =
      >>=-eq-ok (raise_if (actionable raw.disposition && not (is_some raw.plan)) plan_missing) _
        h2 in
    let (_, _, h4) =
      >>=-eq-ok (raise_if (not (actionable raw.disposition) && is_some raw.plan) plan_not_allowed) _
        h3 in
    let (reasons, _, h5) = >>=-eq-ok (canonical_codes raw.reason_codes) _ h4 in
    let (risks, _, h6) = >>=-eq-ok (canonical_codes raw.risk_codes) _ h5 in
    let (invalidations, _, h7) = >>=-eq-ok (canonical_codes raw.invalidation_codes) _ h6 in
    let (_, _, h8) = >>=-eq-ok (raise_if (is_empty reasons) reason_codes_missing) _ h7 in
    let (_, _, h9) =
      >>=-eq-ok
        (raise_if ((actionable raw.disposition || is_market_risk raw.disposition) && is_empty risks)
          risk_codes_missing)
        _ h8 in
    let (_, _, h10) =
      >>=-eq-ok
        (raise_if (actionable raw.disposition && is_empty invalidations) invalidation_codes_missing)
        _ h9 in
    let (_, _, h11) =
      >>=-eq-ok
        (raise_if (not (actionable raw.disposition) && not (is_empty invalidations))
          invalidation_codes_not_allowed)
        _ h10 in
    let made = ok-injective h11 in
    let same_code : code ≡ i.generator_code = ap (λ x. x.generator_code) made in
    let same_version : version ≡ i.generator_version = ap (λ x. x.generator_version) made in
    (
      subst (λ x. is_plain x ≡ true) same_code
          (normalize_generator_code-plain raw.generator_code coded),
      subst (λ x. is_plain x ≡ true) same_version
          (normalize_generator_code-plain raw.generator_version versioned),
    )

-- For inputs that passed their checks, where SHA-256 does not take their two identity texts to one
-- digest unless these are equal, equal recommendation keys come from the same identity: the same
-- text of the snapshot's identifier, the same generator code and the same version.
pub recommendation_key-injective :
    (sha256 : Text → Text) (raw raw' : RecommendationInput) {i j : RecommendationInput}
    → new_input raw ≡ ok i
    → new_input raw' ≡ ok j
    → (sha256 (identity_text i) ≡ sha256 (identity_text j) → identity_text i ≡ identity_text j)
    → recommendation_key sha256 i ≡ recommendation_key sha256 j
    → (uuid_text i.feature_snapshot_id ≡ uuid_text j.feature_snapshot_id)
      × (i.generator_code ≡ j.generator_code)
      × (i.generator_version ≡ j.generator_version)
unfolding recommendation_key
recommendation_key-injective sha256 raw raw' {i} {j} made made' collision_free h =
    let same = collision_free (after_prefix (codes "recommendation:v1:") _ _ h) in
    let (pc, pv) = new_input-plain raw made in
    let (pc', pv') = new_input-plain raw' made' in
    pieces-injective (uuid_text i.feature_snapshot_id) i.generator_code i.generator_version
      (uuid_text j.feature_snapshot_id) j.generator_code j.generator_version
      (uuid_text-plain i.feature_snapshot_id) (uuid_text-plain j.feature_snapshot_id) pc pc' pv pv'
      (sym (identity_text-pieces i) ∙ same ∙ identity_text-pieces j)
