-- ===== src/Flow.antt =====
-- internal/flow: the data that every part of the proxy passes on (flow.go), what a hook asks for
-- (decision.go), body helpers (codec.go) and the order of request headers (order.go).
mod Types
mod Decide
mod Messages
pub mod Merge
pub mod Copy
pub mod Order
pub mod Codec
pub mod Wire
pub mod Reply
pub mod Framing
pub mod StatusLine
unfoldable pub use Types.*
unfoldable pub use Decide.*
unfoldable pub use Messages.*
