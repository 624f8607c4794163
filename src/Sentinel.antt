-- ===== src/Sentinel.antt =====
-- The cat-sentinel service (cat-sentinel/app): detection, tracking, zones and alerts.
pub mod Errors
pub mod Geometry
pub mod Zones
pub mod Tracker
pub mod Detector
pub mod Cats
pub mod Alerts
pub mod Pipeline
pub mod Runner
pub mod Listing
pub mod Mjpeg
pub mod Broadcaster
pub mod Sanitize
pub mod Migration
pub mod Context
pub mod Annotator
pub mod Lifespan
