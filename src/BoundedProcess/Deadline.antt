-- ===== src/BoundedProcess/Deadline.antt =====
-- The time within which runBoundedProcess settles.
pub mod Promise
pub mod Keeps
pub mod Settles
