-- ===== src/Audit.antt =====
-- internal/biz/audit.go and internal/data/audit.go: the trail of recorded actions, a table of its own. An
-- instant that is not set is 0.
mod Trail
pub mod Readers
mod Tests
unfoldable pub use Trail.*
