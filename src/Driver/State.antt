-- ===== src/Driver/State.antt =====
-- `struct velocitor_dev` of module/src/device.h with `struct velocitor_vring` of module/src/vring.h:
-- the fields that the driver's register protocols use. A DMA address is a number; the memory behind
-- it is the host's.
use linux_pci_driver.Common.{ℕ}

-- VEL_VRINGS_COUNT of module/src/vring.h.
abbrev pub vrings_count : ℕ
vrings_count = 4

-- `notifyid` is an `int`; -1 is its bit pattern.
pub record VelocitorVring : Type 0 where
  pub index : ℕ
  pub vector : ℕ
  pub notifyid : ℕ
  pub dma : ℕ

pub record VelocitorDev : Type 0 where
  pub window_base : ℕ
  pub vqs : ℕ → VelocitorVring
  pub dtrace_da : ℕ
  pub pool_dma : ℕ
  pub rsc_dma : ℕ
  pub rproc_generation : ℕ
