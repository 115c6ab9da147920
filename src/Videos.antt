-- ===== src/Videos.antt =====
-- The videos that a message may embed, and which count as verified: src/lib/video-embed.ts.
pub mod Embed
pub mod Chosen
pub mod Verified
pub mod Shown
pub mod Examples
