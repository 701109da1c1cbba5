-- ===== src/Bill.antt =====
-- workers/ingest/billcommons_ingest/status.py: the status of a bill.
pub mod Vocabulary
pub mod Status
pub mod Session
mod Examples
