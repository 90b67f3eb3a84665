-- ===== src/Queue.antt =====
-- core/internal/queue: the durable notification queue.
pub mod Types
pub mod Ledger
pub mod Disk
pub mod Listing
pub mod Items
pub mod Triple
pub mod Durable
pub mod Settle
pub mod Cleanup
pub mod Enqueue
pub mod Targets
pub mod Reports
