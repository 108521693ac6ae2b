-- ===== src/Tree.antt =====
-- The tree usecase of internal/biz/node.go.
mod Config
mod Chain
mod Naming
mod Folders
mod Moves
mod Trash
mod Purge
mod Listing
mod Entries
pub mod Shapes
pub mod Invariant
pub mod Lineage
pub mod Atomic
pub mod Gate
pub mod Unlocks
pub mod Sample
mod Tests
unfoldable pub use Config.*
unfoldable pub use Chain.*
unfoldable pub use Naming.*
unfoldable pub use Folders.*
unfoldable pub use Moves.*
unfoldable pub use Trash.*
unfoldable pub use Purge.*
unfoldable pub use Listing.*
unfoldable pub use Entries.*
