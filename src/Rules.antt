-- ===== src/Rules.antt =====
-- internal/rules/engine.go: the rules that the user has set up, applied to the flows.
pub mod Values
pub mod Types
pub mod Sorted
pub mod Headers
pub mod Conditions
pub mod Matching
pub mod HeaderOps
pub mod Edits
pub mod Engine
pub mod Quiet
pub mod Responses
pub mod Chain
