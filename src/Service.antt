-- ===== src/Service.antt =====
-- core/internal/service: how the delivery service resolves, processes and finishes an item.
pub mod Targets
pub mod Resolved
pub mod Process
mod Tests
