-- ===== src/Task.antt =====
-- The parts of task/: the registry of tasks and the aggregator of results.
pub mod Aggregator
pub mod Registry
pub mod Async
pub mod Ping
pub mod Executor
pub mod Zabbix
