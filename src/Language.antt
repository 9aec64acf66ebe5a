-- ===== src/Language.antt =====
-- backend/internal/language: the interface of the executors, their registry, and the five
-- executors that cmd/api/main.go registers.
pub mod Executor
pub mod Executors
pub mod Registry
pub mod Supported
