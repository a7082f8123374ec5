-- ===== src/Syncer.antt =====
-- The configuration syncer (syncer/): lines, the detection of changes, and the subscribers.
pub mod Line
pub mod Changes
pub mod Sync
pub mod Subscribers
pub mod Templates
pub mod Macros
