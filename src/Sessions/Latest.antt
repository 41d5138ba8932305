-- ===== src/Sessions/Latest.antt =====
-- The answer of UsEquityCompletedSessionResolver.resolve
-- (application/services/completed_session.py).
use auto_trading_v.Prelude.{
  codes_eq, codes_eq→eq, subst, true, ℕ, ◌+◌, ◌≤◌, ◌≡◌, refl, ◌⊎◌, inl, inr, false, Bool-cases,
  Option, some, none, Option-cases, length, arith, ok, ltb,
}
use auto_trading_v.Text.{codes, Text}
use auto_trading_v.Sessions.{
  CalendarCoverage, family_of, nasdaq_core, nyse_core, resolved, ExchangeCalendarFamily,
  MarketSession, UsEquityMarketCalendar, CompletedSessionResolution, no_completed_session,
  calendar_out_of_coverage, unsupported_mic, contains, calendar_family_for_mic, normalized_mic,
  new_resolution, unresolved, search, resolution_of, resolve,
}
use auto_trading_v.Sessions.Search.{IsLatest, Found, search-Found}

unresolved-ok :
    (as_of : ℕ)
    → (new_resolution (unresolved unsupported_mic as_of) ≡ ok (unresolved unsupported_mic as_of))
      × (new_resolution (unresolved calendar_out_of_coverage as_of)
          ≡ ok (unresolved calendar_out_of_coverage as_of))
      × (new_resolution (unresolved no_completed_session as_of)
          ≡ ok (unresolved no_completed_session as_of))
unfolding new_resolution
unresolved-ok as_of = (refl, refl, refl)

found-ok :
    (as_of grace : ℕ) (s : MarketSession) (previous : Option ℕ)
    → s.close_at + grace ≤ as_of
    → new_resolution (resolution_of as_of grace (some (s, previous)))
      ≡ ok (resolution_of as_of grace (some (s, previous)))
unfolding new_resolution
found-ok as_of grace s previous h = rw (after_close, in_time) refl
  where
    after_close : ltb (s.close_at + grace) s.close_at ≡ false
    after_close = ground arith

    in_time : ltb as_of (s.close_at + grace) ≡ false
    in_time = ground arith

-- The exchange codes of a family.
abbrev pub IsCodeOf : ExchangeCalendarFamily → Text → Type 0
IsCodeOf nasdaq_core t = (t ≡ codes "XNGS") ⊎ ((t ≡ codes "XNGM") ⊎ (t ≡ codes "XNCM"))
IsCodeOf nyse_core t = (t ≡ codes "XNYS") ⊎ (t ≡ codes "XASE")

-- A date inside the calendar.
abbrev pub IsCovered : CalendarCoverage → ℕ → Type 0
IsCovered c d = (c.start ≤ d) × (d ≤ c.end)

family_of-IsCodeOf : (t : Text) {f : ExchangeCalendarFamily} → family_of t ≡ some f → IsCodeOf f t
unfolding family_of
family_of-IsCodeOf t {f} h = elim (Bool-cases (codes_eq t (codes "XNGS"))) [
  | inl is_xngs ↦ code_of nasdaq_core (rw is_xngs at h) (inl (codes_eq→eq t (codes "XNGS") is_xngs))
  | inr not_xngs ↦ elim (Bool-cases (codes_eq t (codes "XNGM"))) [
    | inl is_xngm ↦
        code_of nasdaq_core (rw (not_xngs, is_xngm) at h)
          (inr (inl (codes_eq→eq t (codes "XNGM") is_xngm)))
    | inr not_xngm ↦ elim (Bool-cases (codes_eq t (codes "XNCM"))) [
      | inl is_xncm ↦
          code_of nasdaq_core (rw (not_xngs, not_xngm, is_xncm) at h)
            (inr (inr (codes_eq→eq t (codes "XNCM") is_xncm)))
      | inr not_xncm ↦ elim (Bool-cases (codes_eq t (codes "XNYS"))) [
        | inl is_xnys ↦
            code_of nyse_core (rw (not_xngs, not_xngm, not_xncm, is_xnys) at h)
              (inl (codes_eq→eq t (codes "XNYS") is_xnys))
        | inr not_xnys ↦ elim (Bool-cases (codes_eq t (codes "XASE"))) [
          | inl is_xase ↦
              code_of nyse_core (rw (not_xngs, not_xngm, not_xncm, not_xnys, is_xase) at h)
                (inr (codes_eq→eq t (codes "XASE") is_xase))
          | inr not_xase ↦ absurd (
              let bad : none ≡ some f =
                rw (not_xngs, not_xngm, not_xncm, not_xnys, not_xase) at h in
              cc bad)
        ]
      ]
    ]
  ]
]
  where
    code_of : (g : ExchangeCalendarFamily) → some g ≡ some f → IsCodeOf g t → IsCodeOf f t
    code_of g e code = let same : g ≡ f = cc e in subst (λ x. IsCodeOf x t) same code

-- of two equal texts
no_family : (c t : Text) → t ≡ c → family_of t ≡ none → ¬ (family_of c ≡ none) → ⊥
no_family c t e h some_family = some_family (subst (λ x. family_of x ≡ none) e h)

IsCodeOf-family_of : (f : ExchangeCalendarFamily) (t : Text) → IsCodeOf f t → ¬ (family_of t ≡ none)
unfolding family_of codes_eq
IsCodeOf-family_of nasdaq_core t (inl e) h = no_family (codes "XNGS") t e h (λ bad. cc bad)
IsCodeOf-family_of nasdaq_core t (inr (inl e)) h = no_family (codes "XNGM") t e h (λ bad. cc bad)
IsCodeOf-family_of nasdaq_core t (inr (inr e)) h = no_family (codes "XNCM") t e h (λ bad. cc bad)
IsCodeOf-family_of nyse_core t (inl e) h = no_family (codes "XNYS") t e h (λ bad. cc bad)
IsCodeOf-family_of nyse_core t (inr e) h = no_family (codes "XASE") t e h (λ bad. cc bad)

contains-IsCovered : (c : CalendarCoverage) (d : ℕ) → contains c d ≡ true → IsCovered c d
unfolding contains
contains-IsCovered c d h = (ground (arith, h), ground (arith, h))

IsCovered-contains : (c : CalendarCoverage) (d : ℕ) → contains c d ≡ false → ¬ IsCovered c d
unfolding contains
IsCovered-contains c d h k = ground (arith, h, k.0, k.1)

-- What the resolver answers, and why.
pub data Answer (exchange_date : ℕ → ℕ) (calendar : UsEquityMarketCalendar) (mic_code : Text)
    (as_of grace : ℕ) (r : CompletedSessionResolution) : Type 0 where
  unsupported :
      ((family : ExchangeCalendarFamily) → ¬ IsCodeOf family (normalized_mic mic_code))
      → r ≡ unresolved unsupported_mic as_of
      → Answer exchange_date calendar mic_code as_of grace r
  outside :
      (family : ExchangeCalendarFamily)
      → IsCodeOf family (normalized_mic mic_code)
      → ¬ IsCovered calendar.coverage (exchange_date as_of)
      → r ≡ unresolved calendar_out_of_coverage as_of
      → Answer exchange_date calendar mic_code as_of grace r
  none_complete :
      (family : ExchangeCalendarFamily)
      → IsCodeOf family (normalized_mic mic_code)
      → IsCovered calendar.coverage (exchange_date as_of)
      → Found
          (calendar.sessions (normalized_mic mic_code))
          as_of
          grace
          (length (calendar.sessions (normalized_mic mic_code)))
          none
      → r ≡ unresolved no_completed_session as_of
      → Answer exchange_date calendar mic_code as_of grace r
  latest :
      (family : ExchangeCalendarFamily) (s : MarketSession) (previous : Option ℕ)
      → IsCodeOf family (normalized_mic mic_code)
      → IsCovered calendar.coverage (exchange_date as_of)
      → IsLatest
          (calendar.sessions (normalized_mic mic_code))
          as_of
          grace
          (length (calendar.sessions (normalized_mic mic_code)))
          s
          previous
      → r ≡ record {
        outcome = resolved;
        as_of = as_of;
        session = some s;
        eligible_at = some (s.close_at + grace);
        previous_session_date = previous;
      }
      → Answer exchange_date calendar mic_code as_of grace r

module _ (exchange_date : ℕ → ℕ) (calendar : UsEquityMarketCalendar) (mic_code : Text)
    (as_of grace : ℕ) where
  answered :
      (family : ExchangeCalendarFamily)
      → IsCodeOf family (normalized_mic mic_code)
      → IsCovered calendar.coverage (exchange_date as_of)
      → (o : Option (MarketSession × Option ℕ))
      → Found
          (calendar.sessions (normalized_mic mic_code))
          as_of
          grace
          (length (calendar.sessions (normalized_mic mic_code)))
          o
      → (r : CompletedSessionResolution) × (new_resolution (resolution_of as_of grace o) ≡ ok r)
        × Answer exchange_date calendar mic_code as_of grace r
  answered family supported covered none h = (
    unresolved no_completed_session as_of,
    (unresolved-ok as_of).2,
    none_complete family supported covered h refl,
  )
  answered family supported covered (some (s, previous)) h = (
    resolution_of as_of grace (some (s, previous)),
    found-ok as_of grace s previous h.complete,
    latest family s previous supported covered h refl,
  )

  -- The resolver returns for every exchange code and time, and no check of its result fails: it
  -- answers unsupported where the code, normalized, is none of XNGS, XNGM, XNCM, XNYS and XASE; of
  -- one of these codes it answers out of coverage where the New York date is before the calendar's
  -- first date or after its last; of one of these codes on a date between them, it answers no
  -- completed session where none of the code's sessions is complete, and otherwise the complete
  -- session with the highest index, its close plus the grace period, and the date of the session
  -- before it, if there is one.
  pub resolve_total :
      (r : CompletedSessionResolution) × (resolve exchange_date calendar mic_code as_of grace
        ≡ ok r)
      × Answer exchange_date calendar mic_code as_of grace r
  unfolding resolve calendar_family_for_mic
  resolve_total = elim (Option-cases (calendar_family_for_mic mic_code)) [
    | inl missing ↦ (
      unresolved unsupported_mic as_of,
      rw missing (unresolved-ok as_of).0,
      unsupported (λ f code. IsCodeOf-family_of f (normalized_mic mic_code) code missing) refl,
    )
    | inr (family, supported) ↦
        elim (Bool-cases (contains calendar.coverage (exchange_date as_of))) [
          | inr gone ↦ (
            unresolved calendar_out_of_coverage as_of,
            rw (supported, gone) (unresolved-ok as_of).1,
            outside family (family_of-IsCodeOf (normalized_mic mic_code) supported)
                (IsCovered-contains calendar.coverage (exchange_date as_of) gone) refl,
          )
          | inl covered ↦
              let sessions = calendar.sessions (normalized_mic mic_code) in
              let (r, made, answer) =
                answered family (family_of-IsCodeOf (normalized_mic mic_code) supported)
                  (contains-IsCovered calendar.coverage (exchange_date as_of) covered)
                  (search sessions as_of grace (length sessions))
                  (search-Found sessions as_of grace (length sessions)) in
              (r, rw (supported, covered) made, answer)
        ]
  ]
