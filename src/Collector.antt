-- ===== src/Collector.antt =====
-- The collector of work events: app/services/work_events.py, MultiSourceWorkEventCollector. The four
-- sources are read without interruption, one after another; what they answer is a parameter, and
-- the collector writes to none of them.
pub mod Sources
pub mod Email
pub mod Merge
pub mod Partial
