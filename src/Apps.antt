-- ===== src/Apps.antt =====
-- The package `apps`: the data model that the server and the apps share (apps/*.go).
pub mod Location
pub mod Permission
pub mod ExpandLevel
pub mod Call
pub mod Context
pub mod Event
pub mod Timer
pub mod Entities
pub mod Deploy
pub mod App
pub mod Form
pub mod Binding
mod Tests
