-- ===== src/Auth.antt =====
-- internal/biz/auth.go: credentials, refresh sessions and the identity behind an access token.
mod Options
mod Sessions
mod Identity
mod Lookups
pub mod Revoked
pub mod Rotation
pub mod Passwords
pub mod Roundtrip
pub mod Sample
mod Tests
unfoldable pub use Options.*
unfoldable pub use Sessions.*
unfoldable pub use Identity.*
