-- ===== src/Retry.antt =====
-- common/retry.py: call_with_retry. The operation is what it does at each attempt, counted from 1;
-- a delay is a value of any type, since the code only hands it to the sleeper.
pub mod Attempts
mod Tests
use auto_trading_v.Prelude.{
  ℕ, zero, suc, ◌+◌, Bool, true, false, ◌||◌, not, List, [], ◌∷◌, ltb, ◌==◌, if◌then◌else◌, Result,
  ok, raise,
}

-- RetryPolicy, with max_attempts at least 1 and delays that its constructor has accepted.
pub record RetryPolicy (D : Type 0) : Type 0 where
  pub max_attempts : ℕ
  pub retry_delay : D
  pub request_delay : D

-- What leaves the helper as an exception: the operation's last one, or its own.
pub data RetryError (E : Type 0) : Type 0 where
  operation_raised : E → RetryError E
  no_retryable_exceptions loop_exited : RetryError E

-- The outcome, how many attempts were made, and the delays that were slept, in order.
pub record Outcome (D E A : Type 0) : Type 0 where
  pub result : Result (RetryError E) A
  pub attempts : ℕ
  pub slept : List D

abbrev pub sleep_first : {D E A : Type 0} → D → Outcome D E A → Outcome D E A
sleep_first d o = record o { slept = d ∷ o.slept }

module _ {D E A : Type 0} (policy : RetryPolicy D) (retryable : E → Bool)
    (operation : ℕ → Result E A) where
  -- The loop from an attempt on, with the number of attempts that the range has left.
  unfoldable pub attempt_from : ℕ → ℕ → Outcome D E A
  attempt_from zero attempt = record { result = raise loop_exited; attempts = attempt; slept = [] }
  attempt_from (suc left) attempt =
      let later = attempt_from left (suc attempt) in
      elim (operation attempt) [
        | ok a ↦ record { result = ok a; attempts = attempt; slept = [] }
        | raise e ↦
            if not (retryable e) || attempt == policy.max_attempts
            then record { result = raise (operation_raised e); attempts = attempt; slept = [] }
            else sleep_first policy.retry_delay later
      ]

  -- call_with_retry. `some_retryable` is whether the tuple of exception types has an element.
  unfoldable pub call_with_retry : Bool → Outcome D E A
  unfolding attempt_from
  call_with_retry some_retryable =
      if not some_retryable
      then record { result = raise no_retryable_exceptions; attempts = 0; slept = [] }
      else sleep_first policy.request_delay (attempt_from policy.max_attempts 1)
