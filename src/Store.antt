-- ===== src/Store.antt =====
-- The package server/store: records that the plugin keeps in the key-value store of the server.
pub mod Kv
pub mod AppMaps
pub mod Apps
pub mod HashKeys
pub mod AppKv
pub mod OAuth2
pub mod Manifests
pub mod Subscriptions
pub mod Sessions
