-- ===== src/Execution.antt =====
-- backend/internal/execution/service.go: one execution of submitted code, from the request to a
-- result, in its own workspace and container.
pub mod Service
pub mod Phases
