-- ===== src/Sync.antt =====
-- The delivery of Runs to the cloud: the queue (lib/domain/sync.py and SQLiteSyncQueueRepository of
-- lib/repositories/sqlite.py) and the service that works it off (lib/services/sync_service.py).
pub mod Queue
pub mod Service
pub mod Keys
pub mod Failures
pub mod Attempts
pub mod Delivery
pub mod Rounds
