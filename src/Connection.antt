-- ===== src/Connection.antt =====
-- The connection package (connection/): the state machine of a connection, the pooled connection,
-- the rebuild policy, the resilience layer and the pool.
pub mod State
pub mod Health
pub mod Conn
pub mod Float
pub mod Events
pub mod Rebuild
pub mod Breaker
pub mod Retry
pub mod Pool
pub mod Config
pub mod Resilient
pub mod Balancer
