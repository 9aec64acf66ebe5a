-- ===== src/Tests.antt =====
-- Runs of the theorems at concrete inputs.
mod Api
mod Data
mod Heartbeat
mod Jobs
mod Judge
mod Requests
mod Sandbox
mod Server
mod Worker
mod Order
mod Problems
mod Platform
mod Recovery
mod Analysis
mod Served
