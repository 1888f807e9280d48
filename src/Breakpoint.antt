-- ===== src/Breakpoint.antt =====
-- internal/pipeline/breakpoint.go: rules that stop a flow, and the flows that wait for the UI.
mod State
pub mod Match
pub mod Pause
pub mod Slots
pub mod Answers
pub mod Edits
unfoldable pub use State.*
