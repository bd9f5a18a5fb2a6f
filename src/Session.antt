-- ===== src/Session.antt =====
-- src/remote_debugging/session.rs: `PySession`, which resolves the facts of a process once and reads
-- its stats. A function takes what the system answers while it runs, the `Machine`. The warning of
-- `warn_if_gc_runtime_unverified` is only printed, and is left out.
pub mod Walk
pub mod Chain
pub mod Visits
pub mod Distinct
pub mod Defs
pub mod Attach
pub mod Reads
pub mod Live
pub mod Same
pub mod Published
pub mod Layouts
pub mod Attached
pub mod Revalidate
pub mod Tour
pub mod Stats
mod Tests
mod CacheTests
