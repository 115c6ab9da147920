-- ===== src/Worker.antt =====
-- The assistant worker: worker/src/server.ts.
pub mod Failures
pub mod Tasks
pub mod Submission
pub mod Session
pub mod Events
pub mod Coverage
pub mod Guard
pub mod TurnRuns
pub mod Writes
pub mod Lives
pub mod Starts
pub mod Accepted
pub mod Reach
pub mod Stop
pub mod Gates
pub mod Examples
