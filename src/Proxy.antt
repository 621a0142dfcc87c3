-- ===== src/Proxy.antt =====
-- The package server/proxy: what stands between the users and the apps.
pub mod Form
pub mod Bindings
pub mod Lifecycle
pub mod Install
pub mod Upstreams
pub mod Calls
pub mod Notify
pub mod Expand
