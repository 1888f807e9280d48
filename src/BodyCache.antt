-- ===== src/BodyCache.antt =====
-- internal/bodycache/bodycache.go: copies of large response bodies on disk, within a budget.
pub mod Store
pub mod Accounts
pub mod Oldest
pub mod Calls
unfoldable pub use Store.*
