-- ===== src/Tests.antt =====
-- Test data and the concrete instances of the properties.
pub mod Adoptions
pub mod Data
pub mod Sessions
pub mod Files
pub mod Handoffs
pub mod Processes
pub mod Stores
pub mod Streams
pub mod Terminals
pub mod Transport
pub mod Updates
pub mod Commands
