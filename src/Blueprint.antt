-- ===== src/Blueprint.antt =====
-- blueprint/src/lib.rs and blueprint/src/bootstrap.rs: commands, the journaling executor, plans
-- and the history.
pub mod Executor
pub mod Saga
pub mod Plan
pub mod History
