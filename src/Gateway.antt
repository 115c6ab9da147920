-- ===== src/Gateway.antt =====
-- The requests that the application passes to the assistant worker: src/lib/assistant-worker.ts on one
-- side, the router of worker/src/server.ts on the other.
pub mod Json
pub mod Routes
pub mod Forward
pub mod Paths
pub mod Decisions
pub mod Agreement
pub mod Routing
pub mod Relay
pub mod Examples
