-- ===== src/Conversations.antt =====
-- The assistant's conversations: worker/src/store.ts.
pub mod Tables
pub mod Timeline
pub mod Turns
pub mod Evidence
pub mod Settings
pub mod Listing
pub mod Deletion
pub mod Calls
pub mod Rules
pub mod Invariant
pub mod Runs
pub mod Erasure
pub mod Lifecycle
pub mod Recovery
pub mod Examples
