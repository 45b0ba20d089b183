-- ===== src/Sql.antt =====
-- The SQL repositories (app/repositories) over the tables of app/models/persistence.py. A table is
-- the list of its rows, in the order in which they were inserted; a transaction runs as a whole. A
-- row is a value: what a repository hands out is a copy, and changes nothing until it is saved.
pub mod Rows
pub mod Idempotency
pub mod Memories
pub mod Tasks
pub mod Approvals
pub mod Reports
pub mod Meetings
pub mod Files
