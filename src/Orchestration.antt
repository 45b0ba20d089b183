-- ===== src/Orchestration.antt =====
-- The orchestration of the agents (app/orchestration): the intent labels, the planning budget, the
-- approval of controlled actions, and the two domain graphs of reports and of meetings.
pub mod Intent
pub mod Planning
pub mod Approval
pub mod Graphs
pub mod Resume
pub mod Replies
pub mod Supervisor
