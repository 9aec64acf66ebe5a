-- ===== src/Worker.antt =====
-- backend/internal/worker: what a worker does with one message of the queue, and its heartbeat.
pub mod Process
pub mod Safety
pub mod Dispatch
pub mod Settled
pub mod Quiet
pub mod Leased
pub mod Renewal
pub mod Completed
pub mod Heartbeat
pub mod Alive
pub mod Lifetime
pub mod Pool
pub mod Draining
pub mod Panics
pub mod Refined
