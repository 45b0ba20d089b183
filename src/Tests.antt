-- ===== src/Tests.antt =====
-- Sample inputs, and the theorems at inputs where their hypotheses hold.
mod Samples
mod Tasks
mod Worker
mod Reports
mod Meetings
mod Orchestration
mod Services
mod Memories
mod Files
mod Sql
mod Repositories
mod Knowledge
mod Api
mod Supervisor
mod Gateway
