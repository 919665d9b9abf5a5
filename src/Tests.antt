-- ===== src/Tests.antt =====
-- The theorems at concrete data: a user with one grant, and a session of hers.
pub mod Data
mod Minutes
mod Sessions
mod Turns
mod Reads
pub mod Coding
mod Accounts
mod Evaluations
mod Education
mod Coaches
