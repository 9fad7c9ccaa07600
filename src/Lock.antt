-- ===== src/Lock.antt =====
-- state-sync-engine/internal/lock: the distributed lock in a Cloud Storage object.
pub mod Bucket
pub mod Gcs
pub mod Memory
pub mod Race
pub mod System
