-- ===== src/Ingress.antt =====
-- event_ingress: events of Kafka records enter the inbox and start Runs.
pub mod Model
pub mod Inbox
pub mod RuntimeConfig
pub mod Provenance
pub mod Starter
pub mod Worker
pub mod Durable
pub mod Offsets
mod Tests
