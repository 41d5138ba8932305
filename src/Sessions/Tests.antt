-- ===== src/Sessions/Tests.antt =====
-- Two sessions, asked for between their closes.
use auto_trading_v.Prelude.{ℕ, ◌+◌, ◌*◌, ◌/◌, ◌≡◌, refl, some, none, [], ◌∷◌, ◌++◌, ok, codes_eq}
use auto_trading_v.Text.{codes}
use auto_trading_v.Sessions.{
  nyse_core, MarketSession, UsEquityMarketCalendar, CompletedSessionResolution, resolved, resolve,
  contains, calendar_family_for_mic, family_of, normalized_mic, search, new_resolution,
}
use auto_trading_v.Sessions.Latest.{Answer, resolve_total}

abbrev session_on : ℕ → MarketSession
session_on day = record {
  mic_code = codes "XNYS";
  session_date = day;
  open_at = day * 100;
  close_at = day * 100 + 50;
}

abbrev sample_calendar : UsEquityMarketCalendar
sample_calendar = record {
  coverage = record { start = 1; end = 9 };
  sessions = λ mic. session_on 3 ∷ session_on 4 ∷ session_on 5 ∷ [];
}

abbrev day_of : ℕ → ℕ
day_of t = t / 100

resolve_total_example :
    (r : CompletedSessionResolution) × (resolve day_of sample_calendar (codes " xnys ") 455 10
      ≡ ok r)
    × Answer day_of sample_calendar (codes " xnys ") 455 10 r
resolve_total_example = resolve_total day_of sample_calendar (codes " xnys ") 455 10

third_day :
    resolve day_of sample_calendar (codes " xnys ") 455 10
    ≡ ok (record {
      outcome = resolved;
      as_of = 455;
      session = some (session_on 3);
      eligible_at = some 360;
      previous_session_date = none;
    })
unfolding resolve contains calendar_family_for_mic family_of normalized_mic search new_resolution
    codes_eq
third_day = refl

-- U+017F has an ASCII upper case, and U+3000 is white space.
long_s : calendar_family_for_mic (0x3000 ∷ (codes "xny" ++ 0x17f ∷ [])) ≡ some nyse_core
unfolding calendar_family_for_mic family_of normalized_mic codes_eq
long_s = refl
