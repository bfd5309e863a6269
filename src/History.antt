-- ===== src/History.antt =====
-- `HistoryService` (src/Services/HistoryService.h and .cpp): the ring of detections in RTC memory, its
-- backup in NVS and the worker that writes it.
pub mod State
pub mod Scan
pub mod Readers
pub mod Window
pub mod Queries
pub mod Log
pub mod Sync
pub mod Append
pub mod Edit
pub mod Marking
pub mod Backfill
pub mod MarkingOne
pub mod MarkingMany
pub mod Recording
pub mod Backup
pub mod Restart
pub mod Steps
pub mod Trace
pub mod Climbs
pub mod Numbering
pub mod Nvs
pub mod Worker
pub mod Samples
mod Tests
