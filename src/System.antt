-- ===== src/System.antt =====
-- internal/biz/system.go: the runtime settings and the jobs of the maintenance.
mod Settings
mod Jobs
pub mod Retention
mod Tests
unfoldable pub use Settings.*
unfoldable pub use Jobs.*
