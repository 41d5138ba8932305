-- ===== src/Lib.antt =====
-- Verification of auto_trading_v2.
--
-- The program trades US equities on paper. A market snapshot becomes a candidate, filter sets judge
-- it, a strategy decides, an approved decision becomes a trade intent, a paper broker answers an order
-- for it, an accepted order is filled in up to two chunks, and each fill is projected to a position
-- with an event. Every service runs inside a unit of work: one database transaction that is committed
-- at the end of the `with` block, and rolled back when an exception leaves it.
--
-- Files and code, under src/auto_trading_v2 of the repository:
--   Prelude, Text, Decimals
--       Boolean tests, lists, results that are a value or an exception; texts as code points; the
--       arithmetic of Python's decimal.Decimal with a precision and ROUND_HALF_EVEN, written out on
--       a coefficient and a scale.
--   Primitives
--       domain/primitives: Money and Price.
--   Filters
--       domain/filtering and domain/strategy/breakout.py: the five checks keep their names,
--       DeterministicFilterEngine.evaluate is evaluate, the constructors' checks are new_filter_set
--       and new_evaluation. Filters/Catalog has the built-in sets.
--   Strategies
--       domain/strategy_decisions: normalize_reason_codes and extract_blocking_reason_codes,
--       DeterministicStrategyDecisionEngine.decide is decide, evaluate_position_exit.
--   PaperOrders
--       domain/paper_orders and application/contracts/paper_orders.py: statuses, which columns each
--       status requires, and the contract of a row.
--   Submission
--       application/services/paper_order.py: PaperOrderSubmissionService.submit is submit, over the
--       port PaperBroker (application/ports/paper_broker.py), a record that any broker fills.
--       adapters/brokers/internal_paper.py is internal_paper_broker. The derivation of client order
--       identifiers (uuid5) is the parameter client_order_id_for.
--   PaperFills
--       domain/paper_fills and application/contracts/paper_fills.py: InternalPaperSplitFillPolicy,
--       paper_fill_execution_key, validate_fill_history, validate_fill_transition.
--   UnitOfWork
--       The tables as lists of rows in one record Store, with_unit_of_work for the `with` block
--       (adapters/persistence/unit_of_work.py), and the repositories' reads, inserts under unique
--       keys and conditional updates (adapters/persistence/repositories).
--   FillExecution
--       application/services/paper_fill.py: PaperFillExecutionService.execute_next is execute_next.
--       Its body is load_chain (the reads and guards), prepare_step (history, plan and the next
--       fill), and write_step (the insert and the update).
--   Positions, Projector
--       domain/position_projection, application/services/position_projector.py and
--       position_projection_source.py: PositionProjectorService.project_fill is project_fill,
--       _project_once is project_body; _open_position and _increase_position are open_new_position
--       and increase_position.
--   CandidateDecisions
--       application/services/strategy_decision.py: CandidateStrategyDecisionService.decide_all is
--       decide_all, over the decision engine of Strategies, with the contract of a row
--       (application/contracts/strategy_decisions.py). The tables of filter evaluations and decisions are
--       its arguments; a row holds the decision that TradeIntents reads.
--   TradeIntents
--       domain/trade_intents and application/contracts/trade_intents.py: the policy and
--       plan_fixed_notional_quantity; application/services/trade_intent.py:
--       CandidateTradeIntentService.create_all is create_all (TradeIntents/Service), a loop over the
--       strategies' decisions.
--   Trading
--       The four services that write intents, orders, fills and positions, as one relation Call between
--       stores, and Run for sequences of calls by any clients.
--   Sessions
--       application/services/completed_session.py: UsEquityCompletedSessionResolver.resolve is resolve,
--       over the port UsEquityMarketCalendar; the date in New York at a time is a parameter.
--   Scoring
--       domain/feature_scoring/scoring.py: percentiles of a feature over a population, component scores
--       (calculate_component_scores) and the scores that are persisted (RelativeScore). Scoring/Ranks has
--       deterministic_ranks and the aggregate's checks of ranks (aggregate.py). Keys of items are natural
--       numbers, a population is the list of its items.
--   Recommendations
--       domain/recommendations (codes, plans, inputs; Recommendations/Content has the keys and digests) and
--       application/services/recommendation.py: RecommendationCreationService.create is create
--       (Recommendations/Service). Its arguments `seen`, `at_insert` and `later` are the tables that its
--       read, its insert and its second transaction meet, so that another client may commit in between.
--       sha256 (hashlib) and the text of a timestamp (datetime.isoformat) are parameters.
--   Readiness, Retry
--       domain/training_readiness/evaluation.py (percentages, the readiness of a dataset from its
--       counts) and common/retry.py.
--
-- How it is modelled. Identifiers (UUIDs), times and durations are natural numbers. Clocks and
-- identifier factories are arguments. A handler takes the store and returns its result, or the
-- exception as a value, with the store afterwards. project_fill also takes the tables that its second
-- transaction sees, so that a commit of another client in between is covered; the transactions
-- themselves are taken one after another, and a rejected insert or a stale conditional update is an
-- error value of the model.
--
-- Bounds and fuel. The printers of decimal numbers run on fuel: the number plus one, which is more
-- than the count of its digits. The loop of call_with_retry runs on the attempts that its range has
-- left. Decimal arithmetic rounds to the precision that the code sets (28 by default, 38 for filters,
-- 80 for averages). Exponent limits, NaN, infinities and signals other than InvalidOperation of
-- quantize are not modelled, since the code's constructors refuse numbers that are not finite.
--
-- Not modelled: the text of SQL statements and their drivers (SQLAlchemy, pyodbc, the .NET bridge),
-- column types (rounding to numeric(38,18)), CHECK and foreign keys, recording times, which of
-- several violated keys the server reports, isinstance checks, naive datetimes, configuration, HTTP
-- providers, redaction of logs. Of the maps that a filter check shows, a decimal stands for its
-- text; of a signal's details only the blocking codes are kept. Of the research pipelines only
-- feature scoring is modelled; the digests of their contents and their storage are not.
pub mod CandidateDecisions
pub mod Decimals
pub mod FillExecution
pub mod Filters
pub mod PaperFills
pub mod PaperOrders
pub mod Positions
pub mod Prelude
pub mod Primitives
pub mod Projector
pub mod Readiness
pub mod Recommendations
pub mod Retry
pub mod Scoring
pub mod Sessions
pub mod Strategies
pub mod Submission
pub mod Text
pub mod TradeIntents
pub mod Trading
pub mod UnitOfWork
