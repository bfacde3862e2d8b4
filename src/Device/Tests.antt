-- ===== src/Device/Tests.antt =====
-- The theorems of the device at concrete inputs.
pub mod Data
mod Requests
mod Packets
mod System
