-- ===== src/Thread.antt =====
-- The thread that the page shows: src/components/assistant-thread.ts.
pub mod Entries
pub mod Groups
pub mod Order
pub mod Grouping
pub mod Examples
