-- ===== src/EndToEnd.antt =====
-- The services together: what the camera shows and what the detection pipeline processes.
pub mod Frames
mod Tests
