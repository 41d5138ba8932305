-- ===== src/Sessions.antt =====
-- application/services/completed_session.py: the resolver of completed sessions over a calendar of the port
-- application/ports/market_calendar.py. Also the exchange codes, the coverage and the resolution of
-- domain/market_calendar/models.py.
pub mod Search
pub mod Latest
mod Tests
use auto_trading_v.Prelude.{
  ◌==◌, ℕ, zero, suc, ◌+◌, ◌-◌, Bool, true, false, ◌&&◌, ◌||◌, not, Option, none, some, List, [],
  ◌∷◌, ◌++◌, map, length, get_elem?, ltb, leb, is_none, is_some, codes_eq, if◌then◌else◌, Result,
  ok, raise, raise_if, ◌>>=◌, ◌>>◌,
}
use auto_trading_v.Text.{Text, codes}
use auto_trading_v.PaperOrders.{is_space}

pub data ExchangeCalendarFamily : Type 0 where
  nasdaq_core nyse_core : ExchangeCalendarFamily

-- The session's date as a day number.
pub record MarketSession : Type 0 where
  pub mic_code : Text
  pub session_date : ℕ
  pub open_at : ℕ
  pub close_at : ℕ

pub record CalendarCoverage : Type 0 where
  pub start : ℕ
  pub end : ℕ

-- UsEquityMarketCalendar, the port.
pub record UsEquityMarketCalendar : Type 0 where
  pub coverage : CalendarCoverage
  pub sessions : Text → List MarketSession

-- CalendarCoverage.contains
unfoldable pub contains : CalendarCoverage → ℕ → Bool
contains c d = leb c.start d && leb d c.end

-- str.upper of one code point. Beyond ASCII it is written out where the upper case has an ASCII
-- character; the upper case of every other code point stands for itself, since it is not in a code.
abbrev pub upper : ℕ → Text
upper c =
    if leb b'a' c && leb c b'z'
    then (c - 32) ∷ []
    else if c == 0xdf
    then codes "SS"
    else if c == 0x131
    then codes "I"
    else if c == 0x149
    then 0x2bc ∷ b'N' ∷ []
    else if c == 0x17f
    then codes "S"
    else if c == 0x1f0
    then b'J' ∷ 0x30c ∷ []
    else if c == 0x1e96
    then b'H' ∷ 0x331 ∷ []
    else if c == 0x1e97
    then b'T' ∷ 0x308 ∷ []
    else if c == 0x1e98
    then b'W' ∷ 0x30a ∷ []
    else if c == 0x1e99
    then b'Y' ∷ 0x30a ∷ []
    else if c == 0x1e9a
    then b'A' ∷ 0x2be ∷ []
    else if c == 0xfb00
    then codes "FF"
    else if c == 0xfb01
    then codes "FI"
    else if c == 0xfb02
    then codes "FL"
    else if c == 0xfb03
    then codes "FFI"
    else if c == 0xfb04
    then codes "FFL"
    else if c == 0xfb05 || c == 0xfb06
    then codes "ST"
    else c ∷ []

-- str.upper
abbrev pub uppered : Text → Text
uppered [] = []
uppered (c ∷ cs) = upper c ++ uppered cs

abbrev pub drop_spaces : Text → Text
drop_spaces [] = []
drop_spaces (c ∷ cs) = if is_space c then drop_spaces cs else c ∷ cs

abbrev pub reverse : Text → Text
reverse [] = []
reverse (c ∷ cs) = reverse cs ++ c ∷ []

-- value.strip().upper()
unfoldable pub normalized_mic : Text → Text
normalized_mic t = uppered (reverse (drop_spaces (reverse (drop_spaces t))))

-- _MIC_FAMILIES.get
unfoldable pub family_of : Text → Option ExchangeCalendarFamily
family_of t =
    if codes_eq t (codes "XNGS") || (codes_eq t (codes "XNGM") || codes_eq t (codes "XNCM"))
    then some nasdaq_core
    else if codes_eq t (codes "XNYS") || codes_eq t (codes "XASE")
    then some nyse_core
    else none

-- calendar_family_for_mic
unfoldable pub calendar_family_for_mic : Text → Option ExchangeCalendarFamily
calendar_family_for_mic t = family_of (normalized_mic t)

pub data CompletedSessionResolutionOutcome : Type 0 where
  resolved no_completed_session calendar_out_of_coverage unsupported_mic :
      CompletedSessionResolutionOutcome

pub record CompletedSessionResolution : Type 0 where
  pub outcome : CompletedSessionResolutionOutcome
  pub as_of : ℕ
  pub session : Option MarketSession
  pub eligible_at : Option ℕ
  pub previous_session_date : Option ℕ

pub data ResolutionError : Type 0 where
  metadata_missing times_inconsistent metadata_unexpected : ResolutionError

abbrev pub is_resolved : CompletedSessionResolutionOutcome → Bool
is_resolved resolved = true
is_resolved _ = false

-- The times of a resolved session.
abbrev pub times_ok : ℕ → Option MarketSession → Option ℕ → Result ResolutionError (Unit {0})
times_ok as_of (some s) (some t) = raise_if (ltb t s.close_at || ltb as_of t) times_inconsistent
times_ok as_of _ _ = raise metadata_missing

-- CompletedSessionResolution.__post_init__
unfoldable pub new_resolution :
    CompletedSessionResolution → Result ResolutionError CompletedSessionResolution
new_resolution r = do
  if is_resolved r.outcome
      then times_ok r.as_of r.session r.eligible_at
      else raise_if
          (is_some r.session || (is_some r.eligible_at || is_some r.previous_session_date))
          metadata_unexpected
  ok r

-- _unresolved
abbrev pub unresolved : CompletedSessionResolutionOutcome → ℕ → CompletedSessionResolution
unresolved outcome as_of = record {
  outcome = outcome;
  as_of = as_of;
  session = none;
  eligible_at = none;
  previous_session_date = none;
}

abbrev pub date_of : Option MarketSession → Option ℕ
date_of none = none
date_of (some s) = some s.session_date

-- sessions[index - 1].session_date if index else None
abbrev pub previous_date : List MarketSession → ℕ → Option ℕ
previous_date sessions zero = none
previous_date sessions (suc i) = date_of (get_elem? sessions i)

-- The loop over the indices below a number, downwards: the session found, and the date before it.
unfoldable pub search : List MarketSession → ℕ → ℕ → ℕ → Option (MarketSession × Option ℕ)
search sessions as_of grace zero = none
search sessions as_of grace (suc i) =
    let earlier = search sessions as_of grace i in
    elim (get_elem? sessions i) [
      | none ↦ earlier
      | some s ↦
          if leb (s.close_at + grace) as_of then some (s, previous_date sessions i) else earlier
    ]

-- The answer after the loop.
abbrev pub resolution_of : ℕ → ℕ → Option (MarketSession × Option ℕ) → CompletedSessionResolution
resolution_of as_of grace none = unresolved no_completed_session as_of
resolution_of as_of grace (some (s, previous)) = record {
  outcome = resolved;
  as_of = as_of;
  session = some s;
  eligible_at = some (s.close_at + grace);
  previous_session_date = previous;
}

-- UsEquityCompletedSessionResolver.resolve. `exchange_date` is the day in New York at a time.
unfoldable pub resolve :
    (ℕ → ℕ)
    → UsEquityMarketCalendar
    → Text
    → ℕ
    → ℕ
    → Result ResolutionError CompletedSessionResolution
unfolding search
resolve exchange_date calendar mic_code as_of grace =
    if is_none (calendar_family_for_mic mic_code)
    then new_resolution (unresolved unsupported_mic as_of)
    else if not (contains calendar.coverage (exchange_date as_of))
    then new_resolution (unresolved calendar_out_of_coverage as_of)
    else let sessions = calendar.sessions (normalized_mic mic_code) in
      new_resolution (resolution_of as_of grace (search sessions as_of grace (length sessions)))
