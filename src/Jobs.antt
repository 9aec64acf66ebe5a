-- ===== src/Jobs.antt =====
-- backend/internal/jobs and backend/internal/recovery: execution jobs, their two stores, the
-- service in front of them, and the recovery of jobs and messages that a worker left behind.
pub mod Job
pub mod Table
pub mod Store
pub mod Recovery
pub mod Ticks
pub mod Swept
pub mod Noticed
pub mod Memory
pub mod Service
pub mod Pending
pub mod Pages
pub mod Scanned
pub mod History
pub mod Rows
pub mod Json
pub mod Life
pub mod Lifecycle
pub mod Runs
pub mod Ownership
pub mod Creation
pub mod Queued
pub mod RoundTrip
pub mod Retries
pub mod Sweeps
pub mod Messages
pub mod Contract
pub mod Contracted
pub mod Cells
pub mod Snapshot
