-- ===== src/Hub.antt =====
-- The hub (hub/app): one entry per cat, from what cat-sentinel answers.
pub mod Trackers
pub mod Stream
pub mod Clients
pub mod Context
