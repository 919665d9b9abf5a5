-- ===== src/Store.antt =====
-- internal/db: the tables that the backend works on. A table is the list of its rows in scan
-- order. Identifiers are drawn from a counter, as gen_random_uuid() draws unused ones; times are
-- microseconds, and `now` is NOW(), the start of the running transaction. The columns updated_at,
-- which nothing reads, and the texts of questions are left out.
pub mod Rows
pub mod Grants
pub mod Sessions
pub mod Users
pub mod Messages
pub mod Accounts
pub mod Evaluations
pub mod Educators
pub mod Coaches
