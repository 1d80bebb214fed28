-- ===== src/Webhooks.antt =====
-- The webhooks component: internal/webhooks.
pub mod Domain
pub mod Lifecycle
pub mod Queue
pub mod Registry
pub mod World
pub mod Emission
pub mod Delivery
pub mod System
mod Tests
