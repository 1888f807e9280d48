-- ===== src/Events.antt =====
-- internal/core/events.go: the bus that carries events to the UI.
mod Bus
pub mod Fanout
unfoldable pub use Bus.*
