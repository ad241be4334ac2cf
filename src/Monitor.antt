-- ===== src/Monitor.antt =====
-- src/monitor: the depth feeds, their books and the merged books of the hub.
pub mod Source
pub mod Lob
pub mod Book
pub mod Hub
pub mod Shard
pub mod Venues
pub mod Config
pub mod Grouping
