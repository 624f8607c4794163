-- ===== src/Camera.antt =====
-- The camera bridge (camera/app): events in, webhooks out, the motor, and recordings.
pub mod Errors
pub mod Webhooks
pub mod Events
pub mod Ptz
pub mod Recordings
pub mod Recorder
pub mod Bridge
pub mod Viewer
pub mod Gateway
pub mod Lifespan
pub mod Context
pub mod Migration
pub mod Settings
