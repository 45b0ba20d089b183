-- ===== src/Reports.antt =====
-- Reports: app/domain/reports.py, ReportService, over the in-memory repositories of reports
-- (app/repositories/reports.py) and of idempotency records, with the audit trail.
pub mod Draft
pub mod Service
pub mod Dedup
pub mod Sections
pub mod Submission
pub mod Resubmission
pub mod History
pub mod Reviewed
