-- ===== src/Downloads.antt =====
-- The download queue of the dashboard: worker/src/downloads.ts makes it out of what Radarr and Sonarr
-- say, and src/lib/downloads.ts checks what the worker sends.
pub mod Text
pub mod Records
pub mod Items
pub mod Queue
pub mod Contract
pub mod Snapshot
pub mod Plain
pub mod Numbers
pub mod Fitting
pub mod Titles
pub mod Ids
pub mod Distinct
pub mod Groups
pub mod OneDownload
pub mod WellFormed
pub mod Sizes
pub mod Accepted
pub mod Members
pub mod Shown
pub mod Sent
pub mod Route
pub mod Served
pub mod Order
pub mod Urgency
pub mod Fetch
pub mod Cache
pub mod Paced
pub mod Examples
