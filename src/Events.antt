-- ===== src/Events.antt =====
-- api/v1/events: the messages that flow through the pipelines.
pub mod Timestamp
pub mod Attributes
pub mod VehiclePosition
pub mod Stop
pub mod Dwell
pub mod TravelTime
pub mod Headway
pub mod Message
pub mod Feed
