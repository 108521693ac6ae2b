-- ===== src/Shares.antt =====
-- internal/biz/share.go: the links that publish a node to callers without an account. A random token
-- that the code draws is an argument, and so is the instant that it reads from the clock.
mod Links
mod Visitors
pub mod Grants
pub mod Publishing
pub mod Tokens
pub mod Visits
mod Tests
unfoldable pub use Links.*
unfoldable pub use Visitors.*
