-- ===== src/Orders.antt =====
-- The life of orders: backend/app/order_state_machine.py, backend/app/broker_order_lifecycle.py,
-- backend/app/order_lifecycle.py, and what brings them in line with the broker:
-- backend/app/order_reconciliation.py, backend/app/order_identity_registry.py,
-- backend/app/reconciliation_matcher.py and backend/app/position_manager.py.
pub mod StateMachine
pub mod BrokerLifecycle
pub mod Lifecycle
pub mod Reconciler
pub mod Identities
pub mod Matcher
pub mod PositionManager
