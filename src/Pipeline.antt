-- ===== src/Pipeline.antt =====
-- internal/pipeline: the hooks and the order in which they run (hooks.go, pipeline.go).
mod Hooks
mod Run
pub mod Order
pub mod Stages
unfoldable pub use Hooks.*
unfoldable pub use Run.*
