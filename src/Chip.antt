-- ===== src/Chip.antt =====
-- The chip driver: KSZ8851/servicetool/ksz8851.c and ksz8851.h.
pub mod Tests
pub mod Reg
pub mod Bus
pub mod Fifo
pub mod Send
pub mod Receive
pub mod Irq
pub mod Init
pub mod Multicast
pub mod Bringup
pub mod Filter
pub mod Interrupt
pub mod Balance
pub mod Outcomes
pub mod Interface
pub mod Transfer
pub mod Reception
pub mod Wire
