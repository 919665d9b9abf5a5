-- ===== src/Ledger.antt =====
-- internal/db/grants.sql.go: what the queries on grants and ledger_entries keep true.
pub mod Shares
pub mod Books
pub mod Reserve
pub mod Refund
pub mod Create
pub mod Summary
