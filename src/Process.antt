-- ===== src/Process.antt =====
-- backend/internal/platform/process: the bounded writer and the runner of one process.
pub mod Writer
pub mod Capture
pub mod Groups
pub mod Run
