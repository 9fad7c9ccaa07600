-- ===== src/Replication.antt =====
-- state-sync-engine/internal/replication: the publisher, the SQL that it sends, and the subscriber.
pub mod Identifier
pub mod Sql
pub mod Publisher
pub mod Subscriber
