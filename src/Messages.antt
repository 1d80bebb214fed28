-- ===== src/Messages.antt =====
-- The messages component (internal/messages): domain, tables, repository and service.
pub mod Result
pub mod State
pub mod Domain
pub mod Rows
pub mod World
pub mod Statements
pub mod Repository
pub mod Intake
pub mod Worker
pub mod System
mod Tests
