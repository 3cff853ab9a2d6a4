-- ===== src/Lib.antt =====
-- Verification of the trading platform's backend.
--
-- The backend takes a trading decision to a broker in steps: a pre-trade risk gate admits an order
-- and reserves its exposure, a durable repository records the order and its submission, and the
-- broker's events then drive the order through its life. Circuit breakers and a durable halt stop
-- trading until the broker is reconciled. Each part stands in a module of its own, and a definition
-- has the name of the function that it models.
--
-- Orders.StateMachine models backend/app/order_state_machine.py: the table of allowed transitions.
-- Orders.BrokerLifecycle models backend/app/broker_order_lifecycle.py: one order as the broker
--   reports it, with the checks of each event; History has whole histories of events.
-- Orders.Lifecycle models backend/app/order_lifecycle.py: the orders of a process and the positions
--   that their fills make. Updates has `transition`, as `update`, and `apply_fill`; Positions has
--   `_apply_position_delta`. Books says what it is for positions to agree with orders.
-- Orders.Reconciler models backend/app/order_reconciliation.py, which brings a lifecycle in line with
--   a snapshot of the broker's orders: Loop has `reconcile` and Pending `reconcile_pending`.
-- Orders.Identities models backend/app/order_identity_registry.py, and Orders.Matcher
--   backend/app/reconciliation_matcher.py, with `match` as `match_order`.
-- Orders.PositionManager models backend/app/position_manager.py, with `open` as `open_position` and
--   `reconcile` as `reconcile_positions`.
-- Risk.Reservations and Risk.Gate model backend/app/risk_gate.py: the book of reserved exposure, its
--   rebuild after a restart, and the gate in front of it.
-- Risk.CircuitBreaker models backend/app/risk_circuit_breaker.py.
-- Risk.Store models backend/app/risk_reservation_store.py: `reserve`, `release`, `reconcile` and
--   `active_amount`; the recovery from a broker snapshot is not modelled.
-- Execution.Repository models backend/app/transactional_execution_repository.py: its tables as
--   values. Events has `apply_event`, Identities the broker identities, Submissions the submission
--   records and Outbox the leased outbox.
-- Execution.Intents models backend/app/submission_intent_store.py: the intents in a database table, in
--   a JSON file with a backup (Files), and the methods over the two (Backends). The file comes back
--   with its keys sorted; encoding and parsing change nothing else. Calls has histories of calls.
-- Execution.Authorizations models backend/app/execution_authorization_store.py, with SHA-256 as a
--   parameter, and backend/app/execution_safety_gate.py.
-- Execution.Check models backend/app/execution_authorization.py, over the state of Safety.State and the
--   answers of the gates and of the snapshot provider, which are parameters.
-- Safety.Context models backend/app/broker_execution_context.py and
--   backend/app/reconciliation_result.py; Safety.State models backend/app/safety_state.py.
-- Prelude has what the modules share: Boolean tests, lists, integers, texts, dictionaries, the
--   result of a call that may raise, exact fractions, and the values that the source passes to `float`.
--
-- Numbers. The source computes quantities, prices and money with floats. Here they are integers in
-- units of 1e-9, the tolerance that the source writes; sums and comparisons are exact, so rounding
-- of floats is not modelled. The columns `amount` of a reservation and `quantity` of an intent round
-- what is stored, as PostgreSQL does, with halves away from zero; too many digits are not modelled. A
-- value that the source tests with `math.isfinite` is a Value, which may be a number, not finite, or
-- not numeric; where the source does not test it, as for the quantity of an event of the repository,
-- the model has numbers only. Texts are lists of code points, with `strip`, `upper` and `lower` of
-- ASCII. Times are instants on one clock.
--
-- The lifecycle divides, so its prices and values are exact fractions of such integers.
--
-- State. A method is a function from the old state to the new one. A method that raises is a Result,
-- and its state is the old one: a lock or a transaction makes each method one step, and a rollback
-- undoes it. The lifecycle and the reconciler have no rollback: `apply_fill`, `transition` and what
-- calls them give a result and a state, and a call that raises leaves what it has changed. Every loop
-- here is over a list, so no fuel is used.
--
-- Not modelled: the live execution gateway and the comparison of a whole broker account, which
-- compose the parts modelled here; the dict payloads that a broker's lookup of one order may give,
-- since they are read with many fallbacks for each field; the audit logs; the broker clients, the
-- HTTP layer, the analysis and learning parts, which are floating-point code over third-party data,
-- and the schema migrations.
pub mod Prelude
pub mod Orders
pub mod Risk
pub mod Execution
pub mod Safety
