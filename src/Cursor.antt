-- ===== src/Cursor.antt =====
-- src/monitor/cursor.rs: which Records a poll has already seen, keyed on CPython's cumulative
-- `collections`, and what each ring did against what was read of it. The methods of `Cursor` take
-- the cursor and return the new one.
mod Defs
pub mod Ring
pub mod Span
pub mod Kept
pub mod Invariant
pub mod Admission
pub mod Forget
pub mod Room
pub mod Dedup
pub mod Poll
pub mod History
mod Tests
unfoldable pub use Defs.*
