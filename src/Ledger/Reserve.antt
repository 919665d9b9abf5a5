-- ===== src/Ledger/Reserve.antt =====
-- ReserveMinutes takes exactly the minutes that are asked for, or nothing.
pub mod Rows
pub mod Sums
pub mod Exact
