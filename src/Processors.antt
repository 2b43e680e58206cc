-- ===== src/Processors.antt =====
-- processors/transit: one module for each processor.
pub mod Element
pub mod Elapsed
pub mod StopEvents
pub mod Dwell
pub mod Headway
pub mod Keyed
pub mod Channels
pub mod TravelTime
pub mod FeedMessages
pub mod VehiclePositions
