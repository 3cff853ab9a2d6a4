-- ===== src/Risk.antt =====
-- Pre-trade risk: backend/app/risk_gate.py,
-- backend/app/risk_circuit_breaker.py and backend/app/risk_reservation_store.py.
pub mod Reservations
pub mod Gate
pub mod CircuitBreaker
pub mod Store
