-- ===== src/Retry/Attempts.antt =====
-- The attempts of call_with_retry (common/retry.py).
use auto_trading_v.Prelude.{
  ℕ, zero, suc, ◌+◌, ◌≤◌, ◌<◌, ◌≡◌, refl, ◌⊎◌, inl, inr, true, false, Bool, Bool-cases, List, [],
  ◌∷◌, length, arith, Result, ok, raise, Result-cases, ◌==◌, ==_iff,
}
use auto_trading_v.Retry.{
  RetryPolicy, RetryError, operation_raised, Outcome, attempt_from, call_with_retry, sleep_first,
}

-- A list of one value.
abbrev pub AllAre : {D : Type 0} → D → List D → Type 0
AllAre d [] = Unit
AllAre d (x ∷ xs) = (x ≡ d) × AllAre d xs

module _ {D E A : Type 0} (policy : RetryPolicy D) (retryable : E → Bool)
    (operation : ℕ → Result E A) where
  -- An attempt that does not end the loop.
  abbrev pub IsRetried : ℕ → Type 0
  IsRetried n = (e : E) × (operation n ≡ raise e) × (retryable e ≡ true)

  -- An attempt that ends it: it returned, or its exception is not to be retried, or it was the last.
  abbrev pub IsFinal : ℕ → Result (RetryError E) A → Type 0
  IsFinal n result =
      ((a : A) × (operation n ≡ ok a) × (result ≡ ok a))
      ⊎ ((e : E) × (operation n ≡ raise e)
          × (result ≡ raise (operation_raised e))
          × ((retryable e ≡ false) ⊎ (n ≡ policy.max_attempts)))

  -- A loop that began at an attempt.
  pub record Ended (first : ℕ) (o : Outcome D E A) : Type 0 where
    pub later : first ≤ o.attempts
    pub bounded : o.attempts ≤ policy.max_attempts
    pub before : (n : ℕ) → first ≤ n → n < o.attempts → IsRetried n
    pub final : IsFinal o.attempts o.result
    pub sleeps : first + length o.slept ≡ o.attempts
    pub delays : AllAre policy.retry_delay o.slept

  ends_here :
      (first : ℕ) (result : Result (RetryError E) A)
      → first ≤ policy.max_attempts
      → IsFinal first result
      → Ended first (record { result = result; attempts = first; slept = [] })
  ends_here first result le final = record {
    later = omega arith;
    bounded = le;
    before = λ n a b. absurd (omega arith);
    final = final;
    sleeps = omega arith;
    delays = tt;
  }

  ends_later :
      (first : ℕ) (e : E) (o : Outcome D E A)
      → operation first ≡ raise e
      → retryable e ≡ true
      → Ended (suc first) o
      → Ended first (sleep_first policy.retry_delay o)
  ends_later first e o raised again h = record {
    later = omega (arith, h.later);
    bounded = h.bounded;
    before = λ n a b. elim (split n first a) [
      | inl same ↦ rw same (e, raised, again)
      | inr later ↦ h.before n later b
    ];
    final = h.final;
    sleeps = omega (arith, h.sleeps);
    delays = (refl, h.delays);
  }
    where
      split : (n m : ℕ) → m ≤ n → (n ≡ m) ⊎ (suc m ≤ n)
      split n m h = ground arith

  attempt_from-Ended :
      (left first : ℕ)
      → first + left ≡ suc policy.max_attempts
      → 1 ≤ left
      → Ended first (attempt_from policy retryable operation left first)
  unfolding attempt_from
  attempt_from-Ended zero first sum one = absurd (omega arith)
  attempt_from-Ended (suc left) first sum one = elim (Result-cases (operation first)) [
    | inl (a, returned) ↦
        rw (returned, attempt_from) (ends_here first (ok a) (omega arith) (inl (a, returned, refl)))
    | inr (e, raised) ↦ elim (Bool-cases (retryable e)) [
      | inr never ↦
          rw (raised, never, attempt_from)
            (ends_here first (raise (operation_raised e)) (omega arith)
              (inr (e, raised, refl, inl never)))
      | inl again ↦ elim (Bool-cases (first == policy.max_attempts)) [
        | inl last ↦
            rw (raised, again, last, attempt_from)
              (ends_here first (raise (operation_raised e)) (omega arith)
                (inr (e, raised, refl, inr ((==_iff first policy.max_attempts).0 last))))
        | inr more ↦
            rw (raised, again, more, attempt_from)
              (ends_later first e (attempt_from policy retryable operation left (suc first)) raised
                again
                (attempt_from-Ended left (suc first) (omega arith) (room first left sum more)))
      ]
    ]
  ]
    where
      room :
          (first left : ℕ)
          → first + suc left ≡ suc policy.max_attempts
          → (first == policy.max_attempts) ≡ false
          → 1 ≤ left
      room first left sum more = ground arith

  -- With at least one attempt allowed and some exception type to retry, call_with_retry sleeps the
  -- request delay and then ends after some attempt within the maximum: every attempt before it
  -- raised a retryable exception, with one retry delay slept after each, and that attempt returned
  -- the result, or raised an exception that is not retryable, or was the last one allowed and its
  -- exception is raised.
  pub call_with_retry-Ended :
      1 ≤ policy.max_attempts
      → (o : Outcome D E A) × (call_with_retry policy retryable operation true
          ≡ sleep_first policy.request_delay o)
        × Ended 1 o
  unfolding call_with_retry
  call_with_retry-Ended one = (
    attempt_from policy retryable operation policy.max_attempts 1,
    refl,
    attempt_from-Ended policy.max_attempts 1 (omega arith) one,
  )
