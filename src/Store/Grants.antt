-- ===== src/Store/Grants.antt =====
-- internal/db/grants.sql.go: the queries on the tables grants and ledger_entries.
pub mod Shares
pub mod Create
pub mod Reserve
pub mod Refund
pub mod Balance
