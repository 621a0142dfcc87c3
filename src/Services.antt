-- ===== src/Services.antt =====
-- The package server/appservices: what the plugin offers to the apps.
pub mod Subscribe
pub mod Data
