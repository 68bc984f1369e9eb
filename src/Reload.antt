-- ===== src/Reload.antt =====
-- src/reload: the transaction that replaces a generation by another.
pub mod Transaction
pub mod Executor
