-- ===== src/Sandbox.antt =====
-- backend/internal/sandbox: the profiles, the results of the sandbox, and their classification.
pub mod Profile
pub mod Exec
pub mod Container
pub mod Docker
pub mod Classifier
pub mod Outcomes
