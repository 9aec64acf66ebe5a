-- ===== src/Config.antt =====
-- backend/internal/config/config.go: the configuration that is read from the environment.
pub mod Numbers
pub mod Checks
pub mod Load
pub mod Range
pub mod Usable
