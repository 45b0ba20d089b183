-- ===== src/Meetings.antt =====
-- Meeting minutes: app/domain/meeting_minutes.py, MeetingMinutesService, over the in-memory
-- repository of app/repositories/meetings.py. The methods run without interruption; what the mail
-- system answers is a parameter, and `calls` lists the idempotency keys that it has been given.
pub mod Draft
pub mod Service
pub mod Sending
pub mod Resending
pub mod History
pub mod Listing
pub mod Evidence
