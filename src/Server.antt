-- ===== src/Server.antt =====
-- backend/internal/server: the handlers that create executions and submissions and return them.
-- Routes says which handler a request gets to. A response is its status code and, where there is
-- one, the job or the submission in its body.
pub mod Executions
pub mod Submissions
pub mod Problems
pub mod PublicCases
pub mod FullProblems
pub mod RoundTrip
pub mod Judged
pub mod Runs
pub mod RunsAccepted
pub mod RunsServed
pub mod Routes
pub mod Routed
pub mod Api
pub mod Safe
pub mod Health
pub mod Sessions
pub mod Streams
pub mod Followed
pub mod Accepted
