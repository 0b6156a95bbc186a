-- ===== src/Device.antt =====
-- server/deviceRuntime/manager.js: device availability, the life of device sessions and the queue of
-- each device.
pub mod Types
pub mod Level
pub mod Manager
pub mod Calls
