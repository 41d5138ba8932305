-- ===== src/Strategies/Codes.antt =====
-- normalize_reason_codes (domain/strategy_decisions/reason_codes.py).
use auto_trading_v.Prelude.{
  ℕ, ◌≡◌, ◌↔◌, refl, ap, sym, ◌∙◌, inl, inr, true, false, not, ◌&&◌, Bool, Bool-cases, Option, none,
  List, [], ◌∷◌, arith, Result, ok, raise, raise_if, >>=-eq-ok, ok-injective, if◌then◌else◌, length,
}
use auto_trading_v.Text.{Text}
use auto_trading_v.Strategies.{
  StrategyError, reason_code_invalid, reason_codes_repeated, is_empty, reason_codes_empty, exceeds,
  too_many_reason_codes, is_reason_code, contains, normalize_from, normalize_reason_codes,
}

-- Valid codes, none of them twice or among the given ones.
abbrev pub AreNew : List Text → List Text → Type 0
AreNew seen [] = Unit
AreNew seen (c ∷ cs) = (is_reason_code c ≡ true) × (contains c seen ≡ false) × AreNew (c ∷ seen) cs

dropped :
    (deduplicate : Bool) {again : Result StrategyError (List Text)} {out : List Text}
    → (if deduplicate then again else raise reason_codes_repeated) ≡ ok out
    → again ≡ ok out
dropped true h = h
dropped false h = absurd (cc h)

normalize-AreNew :
    (deduplicate : Bool) (seen values : List Text) {out : List Text}
    → normalize_from deduplicate seen values ≡ ok out
    → AreNew seen out
unfolding normalize_from
normalize-AreNew deduplicate seen [] h = rw (sym (ok-injective h)) tt
normalize-AreNew deduplicate seen (c ∷ cs) h =
    let (_, valid, h1) = >>=-eq-ok (raise_if (not (is_reason_code c)) reason_code_invalid) _ h in
    elim (Bool-cases (contains c seen)) [
      | inl there ↦ normalize-AreNew deduplicate seen cs (dropped deduplicate (rw there at h1))
      | inr new ↦
          let (rest, made, h2) =
            >>=-eq-ok (normalize_from deduplicate (c ∷ seen) cs) _ (rw new at h1) in
          rw (sym (ok-injective h2))
            (ground arith, new, normalize-AreNew deduplicate (c ∷ seen) cs made)
    ]

AreNew-normalize :
    (deduplicate : Bool) (seen values : List Text)
    → AreNew seen values
    → normalize_from deduplicate seen values ≡ ok values
unfolding normalize_from
AreNew-normalize deduplicate seen [] h = refl
AreNew-normalize deduplicate seen (c ∷ cs) (valid, new, later) =
    rw (valid, new, AreNew-normalize deduplicate (c ∷ seen) cs later) refl

-- Without leave to drop repeated codes, the codes are returned as they are, or not at all.
normalize-same :
    (seen values : List Text) {out : List Text}
    → normalize_from false seen values ≡ ok out
    → out ≡ values
unfolding normalize_from
normalize-same seen [] h = sym (ok-injective h)
normalize-same seen (c ∷ cs) h =
    let (_, valid, h1) = >>=-eq-ok (raise_if (not (is_reason_code c)) reason_code_invalid) _ h in
    elim (Bool-cases (contains c seen)) [
      | inl there ↦ absurd (let k = rw there at h1 in cc)
      | inr new ↦
          let (rest, made, h2) = >>=-eq-ok (normalize_from false (c ∷ seen) cs) _ (rw new at h1) in
          sym (ok-injective h2) ∙ ap (λ r. c ∷ r) (normalize-same (c ∷ seen) cs made)
    ]

normalized-ok :
    (require_non_empty deduplicate : Bool) (maximum : Option ℕ) (values : List Text)
    {out : List Text}
    → normalize_reason_codes require_non_empty maximum deduplicate values ≡ ok out
    → (normalize_from deduplicate [] values ≡ ok out)
      × (exceeds (length values) maximum ≡ false)
      × ((require_non_empty && is_empty out) ≡ false)
unfolding normalize_reason_codes
normalized-ok require_non_empty deduplicate maximum values {out} h =
    let (_, few, h1) =
      >>=-eq-ok (raise_if (exceeds (length values) maximum) too_many_reason_codes) _ h in
    let (normalized, made, h2) = >>=-eq-ok (normalize_from deduplicate [] values) _ h1 in
    let (_, filled, h3) =
      >>=-eq-ok (raise_if (require_non_empty && is_empty normalized) reason_codes_empty) _ h2 in
    let same = ok-injective h3 in (rw (← same) made, ground arith, rw (← same) (ground arith))

-- Codes that are new are returned.
pub AreNew-ok :
    (require_non_empty : Bool) (maximum : Option ℕ) (deduplicate : Bool) (values : List Text)
    → AreNew [] values
    → exceeds (length values) maximum ≡ false
    → (require_non_empty && is_empty values) ≡ false
    → normalize_reason_codes require_non_empty maximum deduplicate values ≡ ok values
unfolding normalize_reason_codes
AreNew-ok require_non_empty maximum deduplicate values new few filled =
    rw (few, AreNew-normalize deduplicate [] values new, filled) refl

-- With no maximum, with no leave to drop repeated codes and where at least one is required,
-- normalize_reason_codes returns exactly the lists that are not empty and hold valid codes without
-- repetition, and returns them as they are.
pub normalize_reason_codes_iff :
    (values out : List Text)
    → (normalize_reason_codes true none false values ≡ ok out)
      ↔ (out ≡ values) × AreNew [] values × (is_empty values ≡ false)
normalize_reason_codes_iff values out = (forth, back)
  where
    forth :
        normalize_reason_codes true none false values ≡ ok out
        → (out ≡ values) × AreNew [] values × (is_empty values ≡ false)
    forth h =
        let (made, few, filled) = normalized-ok true false none values h in
        let same = normalize-same [] values made in
        (same, rw same at (normalize-AreNew false [] values made), rw same at filled)

    back :
        (out ≡ values) × AreNew [] values × (is_empty values ≡ false)
        → normalize_reason_codes true none false values ≡ ok out
    back (same, new, filled) = rw same (AreNew-ok true none false values new refl filled)

-- What normalize_reason_codes returns when it drops repeated codes holds valid codes without
-- repetition, and normalizing it again, with no maximum, returns it unchanged.
pub normalize_reason_codes-AreNew :
    (require_non_empty : Bool) (maximum : Option ℕ) (values out : List Text)
    → normalize_reason_codes require_non_empty maximum true values ≡ ok out
    → AreNew [] out × (normalize_reason_codes require_non_empty none true out ≡ ok out)
normalize_reason_codes-AreNew require_non_empty maximum values out h =
    let (made, few, filled) = normalized-ok require_non_empty true maximum values h in
    let new = normalize-AreNew true [] values made in
    (new, AreNew-ok require_non_empty none true out new refl filled)
