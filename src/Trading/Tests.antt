-- ===== src/Trading/Tests.antt =====
-- Intents, submissions and projections.
use auto_trading_v.TradeIntents.Tests.{
  store_with, intent, id_from, strategies, first_call as first_intent,
}
use auto_trading_v.TradeIntents.{initial_policy}
use auto_trading_v.Prelude.{refl, [], ◌∷◌, ok}
use auto_trading_v.UnitOfWork.{fills_by_order}
use auto_trading_v.Submission.{internal_paper_broker}
use auto_trading_v.Submission.Tests.{sample_store, sample_order, sample_submission, next_id}
use auto_trading_v.Projector.{result_of, applied}
use auto_trading_v.Projector.Balance.{Balanced}
use auto_trading_v.Projector.Tests.{
  empty, first_store, second_store, first_event, second_result, first_call, second_call,
  empty-Balanced,
}
use auto_trading_v.Trading.{
  planning, submission, projection, Run, begin, step, AllSettled, OnePerIntent,
}
use auto_trading_v.Trading.Orders.{Run-AllSettled, Run-Balanced}
use auto_trading_v.Trading.Intents.{Run-OnePerIntent}

none_yet : AllSettled (store_with [])
unfolding fills_by_order
none_yet = record { orders = λ k o h. absurd (cc h); no_others = λ k h. refl }

planned_Run : Run internal_paper_broker next_id (store_with []) (store_with (intent ∷ []))
planned_Run =
    step begin
      (planning initial_policy (id_from 40) strategies 90 5 (ok (intent ∷ [])) first_intent)

planned-AllSettled : AllSettled (store_with (intent ∷ []))
planned-AllSettled =
    Run-AllSettled internal_paper_broker next_id (store_with []) (store_with (intent ∷ []))
      planned_Run none_yet

sample-Run : Run internal_paper_broker next_id (sample_store []) (sample_store (sample_order ∷ []))
sample-Run = step begin (submission 100 1 2 (ok sample_order) sample_submission)

none-AllSettled : AllSettled (sample_store [])
unfolding fills_by_order
none-AllSettled = record { orders = λ k o h. absurd (cc h); no_others = λ k h. refl }

Run-AllSettled_example : AllSettled (sample_store (sample_order ∷ []))
Run-AllSettled_example =
    Run-AllSettled internal_paper_broker next_id (sample_store [])
      (sample_store (sample_order ∷ [])) sample-Run none-AllSettled

Run-OnePerIntent_example : OnePerIntent (sample_store (sample_order ∷ []))
Run-OnePerIntent_example =
    Run-OnePerIntent internal_paper_broker next_id (sample_store [])
      (sample_store (sample_order ∷ [])) sample-Run (λ k k' o o' h h' same. absurd (cc h))

projected_Run : Run internal_paper_broker next_id empty second_store
projected_Run =
    step (step begin (projection 20 30 8 empty (ok (result_of first_event applied)) first_call))
      (projection 21 31 9 first_store (ok second_result) second_call)

Run-Balanced_example : Balanced second_store
Run-Balanced_example =
    Run-Balanced internal_paper_broker next_id empty second_store projected_Run empty-Balanced
