-- ===== src/Policy.antt =====
-- core/internal/policy: which policy applies to a notification.
mod Evaluate
pub mod Quiet
pub mod Template
mod Routing
mod Routable
mod Tests
unfoldable pub use Evaluate.*
pub use Routing.*
pub use Routable.*
