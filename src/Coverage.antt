-- ===== src/Coverage.antt =====
-- The coverage of a jurisdiction: how a row of `jurisdiction_coverage` moves with what the crawl
-- collects, what a validation finds, and which row the scheduler validates next.
pub mod Documents
pub mod Row
pub mod Validation
pub mod Selection
mod Examples
