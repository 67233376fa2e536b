-- ===== src/Tracking.antt =====
-- packages/core/src/tracking: the identity map of the change tracker.
pub mod Identity
mod Tests
