-- ===== src/Strategies/Exits.antt =====
-- evaluate_position_exit (domain/strategy_decisions/position_exit.py).
use auto_trading_v.Prelude.{
  ℕ, ◌-◌, ◌≤◌, ◌≡◌, ◌↔◌, ◌⊎◌, refl, inl, inr, true, false, not, ◌&&◌, Bool, all_bool, all_bool-at,
  none, [], arith, ok, codes_eq, ltb, leb, leb→le, le→leb,
}
use auto_trading_v.Decimals.{Decimal, le_dec}
use auto_trading_v.UnitOfWork.{exit_long, skip}
use auto_trading_v.Strategies.{
  is_reason_code, is_empty, normalize_reason_codes, PositionExitPolicy, PositionExitEvaluation,
  triggered, exit_of, return_rate, evaluate_position_exit,
}
use auto_trading_v.Strategies.Codes.{AreNew-ok}
use auto_trading_v.Strategies.Decisions.{are_new, are_new-AreNew}

abbrev readable : Bool → Bool → Bool → Bool
readable a b c =
    are_new [] (exit_of (triggered a b c)).1 && not (is_empty (exit_of (triggered a b c)).1)

all_readable : all_bool (λ a. all_bool (λ b. all_bool (λ c. readable a b c))) ≡ true
unfolding all_bool are_new is_reason_code codes_eq
all_readable = refl

reasons-ok :
    (a b c : Bool)
    → normalize_reason_codes true none false (exit_of (triggered a b c)).1
      ≡ ok (exit_of (triggered a b c)).1
reasons-ok a b c =
    let h = parts (
      all_bool-at (λ c. readable a b c) c
        (all_bool-at (λ b. all_bool (λ c. readable a b c)) b
          (all_bool-at (λ a. all_bool (λ b. all_bool (λ c. readable a b c))) a all_readable))) in
    AreNew-ok true none false (exit_of (triggered a b c)).1
      (are_new-AreNew [] (exit_of (triggered a b c)).1 h.0) refl h.1
  where
    parts : {a b : Bool} → (a && not b) ≡ true → (a ≡ true) × (b ≡ false)
    parts h = ground arith

-- Any of the three triggers.
exit_iff :
    (a b c : Bool)
    → ((exit_of (triggered a b c)).0 ≡ exit_long) ↔ (a ≡ true) ⊎ (b ≡ true) ⊎ (c ≡ true)
exit_iff a b c = ground arith

stays :
    (a b c : Bool)
    → ((exit_of (triggered a b c)).0 ≡ exit_long) ⊎ ((exit_of (triggered a b c)).0 ≡ skip)
stays a b c = ground arith

-- The reasons to leave.
abbrev pub Leaves : Decimal → Decimal → ℕ → ℕ → PositionExitPolicy → Type 0
Leaves average current opened_at observed_at policy =
    (le_dec (return_rate average current) policy.stop_loss_rate ≡ true)
    ⊎ (le_dec policy.take_profit_rate (return_rate average current) ≡ true)
    ⊎ (policy.maximum_holding_duration ≤ observed_at - opened_at)

-- For a position observed no earlier than it was opened, evaluate_position_exit returns, its action
-- is to leave or to skip, and it is to leave exactly when the return is at most the stop-loss rate,
-- or at least the take-profit rate, or the position was held for the maximum duration.
pub evaluate_position_exit_total :
    (average current : Decimal) (opened_at observed_at : ℕ) (policy : PositionExitPolicy)
    → opened_at ≤ observed_at
    → (x : PositionExitEvaluation) × (evaluate_position_exit average current opened_at observed_at
          policy
        ≡ ok x)
      × ((x.action ≡ exit_long) ↔ Leaves average current opened_at observed_at policy)
      × ((x.action ≡ exit_long) ⊎ (x.action ≡ skip))
unfolding evaluate_position_exit
evaluate_position_exit_total average current opened_at observed_at policy le =
    let rate = return_rate average current in
    let held = observed_at - opened_at in
    let a = le_dec rate policy.stop_loss_rate in
    let b = le_dec policy.take_profit_rate rate in
    let c = leb policy.maximum_holding_duration held in
    let x : PositionExitEvaluation = record {
      action = (exit_of (triggered a b c)).0;
      reason_codes = (exit_of (triggered a b c)).1;
      return_rate = rate;
      holding_duration = held;
    } in
    (
      x,
      rw (in_order, reasons-ok a b c) refl,
      (
        λ k. elim ((exit_iff a b c).0 k) [
          | inl stop ↦ inl stop
          | inr rest ↦ elim rest [
            | inl take ↦ inr (inl take)
            | inr time ↦ inr (inr (leb→le policy.maximum_holding_duration held time))
          ]
        ],
        λ k. (exit_iff a b c).1 (elim k [
          | inl stop ↦ inl stop
          | inr rest ↦ elim rest [
            | inl take ↦ inr (inl take)
            | inr time ↦ inr (inr (le→leb policy.maximum_holding_duration held time))
          ]
        ]),
      ),
      stays a b c,
    )
  where
    in_order : ltb observed_at opened_at ≡ false
    in_order = ground arith
