-- ===== src/Ledger/Refund.antt =====
-- RefundSessionMinutes and FullRefundSessionMinutes against their contract.
pub mod Bounds
pub mod Again
pub mod RoundTrip
