-- ===== src/Queue.antt =====
-- workers/ingest/billcommons_ingest/queue.py: the queue of ingest jobs in the table `ingest_jobs`.
pub mod Jobs
pub mod Claims
pub mod Exclusive
pub mod Lifecycle
pub mod Attempts
mod Examples
