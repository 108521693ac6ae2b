-- ===== src/Files.antt =====
-- internal/biz/file.go: chunked uploads, the commit of content into the tree, versions and copies.
mod World
mod Limits
mod Quota
mod Sessions
mod Commit
mod Versions
mod Collecting
mod Transfer
mod Copies
mod Addresses
pub mod Assembly
pub mod Plans
pub mod Committing
pub mod Filing
pub mod Effects
pub mod Inline
pub mod Billing
pub mod Completing
pub mod Restoring
mod Tests
unfoldable pub use World.*
unfoldable pub use Limits.*
unfoldable pub use Quota.*
unfoldable pub use Sessions.*
unfoldable pub use Commit.*
unfoldable pub use Versions.*
unfoldable pub use Collecting.*
unfoldable pub use Transfer.*
unfoldable pub use Copies.*
unfoldable pub use Addresses.*
