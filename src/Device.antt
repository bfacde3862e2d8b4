-- ===== src/Device.antt =====
-- The SANA-II device: KSZ8851/devicedriver/device.c and device.h.
pub mod Tests
pub mod Types
pub mod Queues
pub mod Stack
pub mod Transmit
pub mod Receive
pub mod Commands
pub mod Configuring
pub mod Dispatch
pub mod Lifecycle
pub mod Multicast
pub mod Conservation
pub mod Tracking
pub mod Reading
pub mod Crc
pub mod Filtering
pub mod Membership
pub mod Delivery
pub mod Offers
pub mod Events
pub mod Closing
pub mod Opening
pub mod Settings
pub mod Writing
pub mod Aborting
pub mod Flushing
pub mod Loops
pub mod Progress
pub mod Queueing
pub mod Copying
pub mod System
