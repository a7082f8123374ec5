-- ===== src/Tests.antt =====
-- Runs of the definitions on concrete inputs, one module for each part of the program.
pub mod Connections
pub mod Resilience
pub mod Syncing
pub mod Scheduling
pub mod Results
pub mod Routing
pub mod Pooling
pub mod Templating
pub mod Configuring
pub mod Queueing
pub mod Pinging
