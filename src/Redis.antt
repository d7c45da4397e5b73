-- ===== src/Redis.antt =====
-- The redis crate as the driver sees it: its replies, its errors and its connections.
pub mod Value
pub mod Error
pub mod Network
