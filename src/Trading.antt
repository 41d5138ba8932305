-- ===== src/Trading.antt =====
-- The services together: intents, submissions, fills and projections one after another, in any order, on one
-- store.
pub mod Orders
pub mod Intents
mod Tests
use auto_trading_v.Prelude.{ℕ, ◌≡◌, ◌≤◌, ◌<◌, List, [], Result, Option, some, none}
use auto_trading_v.PaperOrders.{
  PaperOrderStatus, created, accepted, partially_filled, filled, cancelled, rejected, expired,
  PaperOrder,
}
use auto_trading_v.PaperFills.{PaperFill}
use auto_trading_v.UnitOfWork.{TradeIntent, Store, TradeIntent, get_order, get_intent}
use auto_trading_v.FillExecution.{ExecutionError, execute_next}
use auto_trading_v.FillExecution.Lifecycle.{fills_of, quantity_of}
use auto_trading_v.Projector.{ProjectionResult, ServiceError, project_fill}
use auto_trading_v.Strategies.{StrategyDefinition}
use auto_trading_v.TradeIntents.{FixedNotionalRiskPolicy}
use auto_trading_v.TradeIntents.Service.{IntentServiceError, create_all}
use auto_trading_v.Submission.{PaperBroker, SubmissionError, submit}

-- One call of a service, whether it returns or raises.
pub data Call (broker : PaperBroker) (client_order_id_for : ℕ → ℕ) : Store → Store → Type 0 where
  planning :
      {s s' : Store} (policy : FixedNotionalRiskPolicy) (new_id : ℕ → ℕ)
      (strategies : List StrategyDefinition) (now candidate_id : ℕ)
      (r : Result IntentServiceError (List TradeIntent))
      → create_all policy new_id strategies now candidate_id s ≡ (r, s')
      → Call broker client_order_id_for s s'
  submission :
      {s s' : Store} (now order_id trade_intent_id : ℕ) (r : Result SubmissionError PaperOrder)
      → submit broker client_order_id_for now order_id trade_intent_id s ≡ (r, s')
      → Call broker client_order_id_for s s'
  execution :
      {s s' : Store} (now fill_id order_id : ℕ) (r : Result ExecutionError (PaperFill × PaperOrder))
      → execute_next now fill_id order_id s ≡ (r, s')
      → Call broker client_order_id_for s s'
  projection :
      {s s' : Store} (position_id event_id fill_id : ℕ) (later : Store)
      (r : Result ServiceError ProjectionResult)
      → project_fill position_id event_id fill_id later s ≡ (r, s')
      → Call broker client_order_id_for s s'

-- The stores that calls lead to.
pub data Run (broker : PaperBroker) (client_order_id_for : ℕ → ℕ) (s : Store) : Store → Type 0 where
  begin : Run broker client_order_id_for s s
  step :
      {t u : Store}
      → Run broker client_order_id_for s t
      → Call broker client_order_id_for t u
      → Run broker client_order_id_for s u

-- What an order's status says of its fills. The other statuses are never reached.
abbrev pub Standing : ℕ → PaperOrderStatus → List PaperFill → Type 0
Standing requested accepted fills = fills ≡ []
Standing requested rejected fills = fills ≡ []
Standing requested partially_filled fills =
    (1 ≤ quantity_of fills) × (quantity_of fills < requested)
Standing requested filled fills = quantity_of fills ≡ requested
Standing requested _ fills = ⊥

-- An order stands on a stored intent, and its fills are those of its status.
abbrev pub Settled : Store → ℕ → PaperOrder → Type 0
Settled s k o =
    (intent : TradeIntent) × (get_intent s o.trade_intent_id ≡ some intent)
    × Standing intent.requested_quantity o.status (fills_of s k)

-- Every stored order is settled, and there is no fill without an order.
pub record AllSettled (s : Store) : Type 0 where
  pub orders : (k : ℕ) (o : PaperOrder) → get_order s k ≡ some o → Settled s k o
  pub no_others : (k : ℕ) → get_order s k ≡ none → fills_of s k ≡ []

-- No intent has two orders.
abbrev pub OnePerIntent : Store → Type 0
OnePerIntent s =
    (k k' : ℕ) (o o' : PaperOrder)
    → get_order s k ≡ some o
    → get_order s k' ≡ some o'
    → o.trade_intent_id ≡ o'.trade_intent_id
    → k ≡ k'
