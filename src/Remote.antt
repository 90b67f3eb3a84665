-- ===== src/Remote.antt =====
-- core/internal/remote: connections to remote connectors.
pub mod Retry
