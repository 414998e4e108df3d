-- ===== src/Device.antt =====
-- The QEMU device model of qemu-device/velocitor.c, a file for each of its parts.
pub mod State
pub mod Irq
pub mod Trace
pub mod Error
pub mod Window
pub mod Bus
pub mod Allocator
pub mod Firmware
pub mod Monad
pub mod Rsc
pub mod Queue
pub mod Rpmsg
pub mod Data
pub mod Sweep
pub mod Bar0
pub mod Life
pub mod Frame
pub mod Moves
pub mod Tests
