-- ===== src/Retry/Tests.antt =====
-- An operation that fails twice and then returns.
use auto_trading_v.Prelude.{
  ℕ, ◌≡◌, ◌==◌, refl, true, Bool, [], ◌∷◌, arith, Result, ok, raise, if◌then◌else◌,
}
use auto_trading_v.Retry.{RetryPolicy, Outcome, call_with_retry, sleep_first}
use auto_trading_v.Retry.Attempts.{Ended, call_with_retry-Ended}

abbrev sample_policy : RetryPolicy ℕ
sample_policy = record { max_attempts = 5; retry_delay = 7; request_delay = 2 }

abbrev always : ℕ → Bool
always e = true

abbrev third_time : ℕ → Result ℕ ℕ
third_time n = if n == 3 then ok 42 else raise n

call_with_retry-Ended_example :
    (o : Outcome ℕ ℕ ℕ) × (call_with_retry sample_policy always third_time true ≡ sleep_first 2 o)
    × Ended sample_policy always third_time 1 o
call_with_retry-Ended_example = call_with_retry-Ended sample_policy always third_time (omega arith)

third_answers :
    call_with_retry sample_policy always third_time true
    ≡ record { result = ok 42; attempts = 3; slept = 2 ∷ 7 ∷ 7 ∷ [] }
unfolding call_with_retry
third_answers = refl
