-- ===== src/Driver.antt =====
-- The kernel module of module/src.
pub mod State
pub mod Io
pub mod Window
pub mod Vring
pub mod Dtrace
pub mod Idr
pub mod Ctrl
pub mod Handles
pub mod Data
pub mod Tests
pub mod Remoteproc
pub mod Counters
pub mod Irq
pub mod Dma
pub mod Cdev
pub mod Identity
pub mod Lifecycle
