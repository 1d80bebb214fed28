-- ===== src/Modem.antt =====
-- The modem component: internal/modem.
pub mod Text
pub mod Domain
pub mod Commands
pub mod Queries
pub mod Store
pub mod Sending
pub mod Calls
pub mod Budget
pub mod Inbound
pub mod Service
mod Tests
