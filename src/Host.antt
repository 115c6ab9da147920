-- ===== src/Host.antt =====
-- The metrics of the host: src/lib/host-metrics.ts.
pub mod Text
pub mod Results
pub mod Counters
pub mod Memory
pub mod Drives
pub mod Names
pub mod Status
pub mod Metrics
pub mod Sound
pub mod SoundDrives
pub mod SoundStatus
pub mod Checked
pub mod AllSound
pub mod Intervals
pub mod RebuiltDrives
pub mod Rebuilt
pub mod Examples
