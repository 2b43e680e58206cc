-- ===== src/Sinks.antt =====
-- sinks/: the two sinks that collect events in batches, with what they write, and those that pass
-- on each event.
pub mod Batch
pub mod Database
pub mod Parquet
pub mod Turns
pub mod Redis
pub mod Log
pub mod Sse
