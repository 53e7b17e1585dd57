-- ===== src/Mq.antt =====
-- The message queue server, internal/server/mq.go.
pub mod Retry
pub mod Delivery
pub mod Config
pub mod Broker
pub mod Consumer
