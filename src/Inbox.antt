-- ===== src/Inbox.antt =====
-- The inbox component: internal/inbox.
pub mod Dedupe
pub mod Reassembly
pub mod Emission
pub mod Pipeline
mod Tests
