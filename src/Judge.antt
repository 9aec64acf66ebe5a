-- ===== src/Judge.antt =====
-- backend/internal/judge: the comparison of outputs, and the engine that judges submissions.
pub mod Stored
pub mod Shown
pub mod Comparator
pub mod Lines
pub mod Same
pub mod Tokens
pub mod Loop
pub mod Engine
pub mod Finish
pub mod Finalized
pub mod Limits
pub mod Verdicts
