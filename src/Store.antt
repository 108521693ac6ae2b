-- ===== src/Store.antt =====
-- The database behind the usecases: its tables, the transactions of internal/data/data.go, and the
-- repositories of internal/data/node.go and internal/data/user.go as functions on the tables.
mod Model
mod Options
mod Transaction
mod Nodes
mod Acls
mod Accounts
mod Objects
mod Shares
mod Uploads
mod Sessions
pub mod Rows
pub mod Members
unfoldable pub use Model.*
unfoldable pub use Options.*
unfoldable pub use Transaction.*
unfoldable pub use Nodes.*
unfoldable pub use Acls.*
unfoldable pub use Accounts.*
unfoldable pub use Objects.*
unfoldable pub use Shares.*
unfoldable pub use Uploads.*
unfoldable pub use Sessions.*
