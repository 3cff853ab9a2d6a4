-- ===== src/Safety.antt =====
-- The safety side of the backend: the broker context that an order is authorized for, and the durable
-- halt of trading.
pub mod Context
pub mod State
