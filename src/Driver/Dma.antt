-- ===== src/Driver/Dma.antt =====
-- The bring-up transfers of module/src/dma.c, between device memory and the pool of the host. The
-- debugfs files that start them are left out.
pub mod Transfer
use linux_pci_driver.Common.{ℕ, ◌+◌, ◌^◌, ltb, leb, ◌==◌, if◌then◌else◌, ◌||◌, Option, none, some}
use linux_pci_driver.Hw.{
  host_pool_size, dma_status_done, dma_status_error, dbg_dma_h2d, dbg_dma_d2h, einval, eio,
  etimedout,
}
use linux_pci_driver.Hw.Offsets.{
  reg_dbg_dma_addr_lo, reg_dbg_dma_addr_hi, reg_dbg_dma_dev, reg_dbg_dma_len, reg_dbg_dma_ctl,
  reg_dbg_dma_status, reg_err_code,
}
use linux_pci_driver.Device.State.{VelocitorState, Env}
use linux_pci_driver.Driver.Io.{readl, writel}
use linux_pci_driver.Driver.State.{VelocitorDev}
use linux_pci_driver.Driver.Vring.{lower_32_bits, upper_32_bits}

module _ (env : Env) where
  -- The registers that describe a transfer, and its start.
  unfoldable pub start_transfer : ℕ → ℕ → ℕ → ℕ → VelocitorState → VelocitorState
  start_transfer dir target offset len s = writel env dir reg_dbg_dma_ctl (
      writel env len reg_dbg_dma_len (
        writel env offset reg_dbg_dma_dev (
          writel env (upper_32_bits target) reg_dbg_dma_addr_hi
            (writel env (lower_32_bits target) reg_dbg_dma_addr_lo s))))

  -- `velocitor_dma_dbg_`; `poll` is all that the device does until `readl_poll_timeout` reads its
  -- status for the last time. The errno, or 0, with the code that the caller gets, if any.
  unfoldable pub dma_dbg :
      (VelocitorState → VelocitorState)
      → ℕ
      → ℕ
      → ℕ
      → ℕ
      → VelocitorDev
      → VelocitorState
      → (ℕ × Option ℕ) × VelocitorState
  unfolding start_transfer
  dma_dbg poll dir offset pool_offset len d s =
      let end = pool_offset + len in
      let target = d.pool_dma + pool_offset in
      let (status, s1) = readl reg_dbg_dma_status (poll (start_transfer dir target offset len s)) in
      let (code, s2) = readl reg_err_code s1 in
      if leb (2 ^ 32) end || ltb host_pool_size end
      then ((einval, none), s)
      else if status == dma_status_error
      then ((eio, some code), s2)
      else ((if status == dma_status_done then 0 else etimedout, some 0), s1)

  unfoldable pub dma_dbg_write :
      (VelocitorState → VelocitorState)
      → ℕ
      → ℕ
      → ℕ
      → VelocitorDev
      → VelocitorState
      → (ℕ × Option ℕ) × VelocitorState
  unfolding dma_dbg
  dma_dbg_write poll = dma_dbg poll dbg_dma_h2d

  unfoldable pub dma_dbg_read :
      (VelocitorState → VelocitorState)
      → ℕ
      → ℕ
      → ℕ
      → VelocitorDev
      → VelocitorState
      → (ℕ × Option ℕ) × VelocitorState
  unfolding dma_dbg
  dma_dbg_read poll = dma_dbg poll dbg_dma_d2h
