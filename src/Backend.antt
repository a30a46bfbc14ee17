-- ===== src/Backend.antt =====
-- runtime/backend: what prepares a loaded graph to run on the device.
pub mod Arena
pub mod Layout
pub mod Schedule
mod Tests
pub mod Built
pub mod Load
pub mod Binding
