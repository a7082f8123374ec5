-- ===== src/Manager.antt =====
-- The parts of manager/: queues, a router's scheduler, and the lines by router.
pub mod Queue
pub mod Scheduler
pub mod Lines
pub mod FullSync
pub mod Stopping
pub mod Events
