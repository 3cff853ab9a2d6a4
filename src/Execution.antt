-- ===== src/Execution.antt =====
-- The execution side of the backend: the durable repository, the submission intents, the
-- authorizations of an execution and the check before it.
pub mod Repository
pub mod Intents
pub mod Authorizations
pub mod Check
