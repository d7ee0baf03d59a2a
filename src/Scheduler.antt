-- ===== src/Scheduler.antt =====
-- internal/scheduler: schedules, and the runs that are due at a time.
pub mod Occurrences
pub mod Definitions
pub mod Model
pub mod Process
pub mod States
pub mod Many
pub mod Soundness
mod Tests
