-- ===== src/Service.antt =====
-- internal/service: what the service keeps of the traffic, of the rules and of the counts.
pub mod Pages
pub mod Sessions
pub mod Window
pub mod Trimming
pub mod Refines
pub mod Kept
pub mod Paging
pub mod Statistics
pub mod Counting
pub mod RuleStore
pub mod Loading
pub mod Reloading
pub mod Timelines
pub mod Recording
pub mod Switch
