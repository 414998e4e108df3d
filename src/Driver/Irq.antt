-- ===== src/Driver/Irq.antt =====
-- The interrupt handlers of module/src/irq.c with the error block of module/src/error.c. The remote
-- processor is there or not; what a handler tells the remoteproc core is part of its result. The
-- tracepoints are left out.
pub mod Burst
use linux_pci_driver.Common.{ℕ, ◌^◌, if◌then◌else◌, Bool, Option, none, some}
use linux_pci_driver.Hw.{irq_vec_config, irq_vec_error}
use linux_pci_driver.Hw.Offsets.{
  reg_fw_status, reg_irq_ack, reg_err_code, reg_err_info_lo, reg_err_info_hi, reg_err_notifyid,
  reg_err_handle, reg_err_generation, reg_err_dropped,
}
use linux_pci_driver.Device.State.{VelocitorState, Env}
use linux_pci_driver.Device.Bus.{wide}
use linux_pci_driver.Driver.Io.{readl, writel}
use linux_pci_driver.Driver.State.{VelocitorVring}

pub record VelocitorError : Type 0 where
  pub code : ℕ
  pub info : ℕ
  pub notifyid : ℕ
  pub handle : ℕ
  pub generation : ℕ
  pub dropped : ℕ

unfoldable pub error_read : VelocitorState → VelocitorError × VelocitorState
error_read s =
    let (code, s1) = readl reg_err_code s in
    let (lo, s2) = readl reg_err_info_lo s1 in
    let (hi, s3) = readl reg_err_info_hi s2 in
    let (notifyid, s4) = readl reg_err_notifyid s3 in
    let (handle, s5) = readl reg_err_handle s4 in
    let (generation, s6) = readl reg_err_generation s5 in
    let (dropped, s7) = readl reg_err_dropped s6 in
    (
      record {
        code = code;
        info = wide hi lo;
        notifyid = notifyid;
        handle = handle;
        generation = generation;
        dropped = dropped;
      },
      s7,
    )

-- The notifyid that `rproc_vq_interrupt` is called with, if it is.
unfoldable pub irq_queue_event : Bool → VelocitorVring → Option ℕ
irq_queue_event rproc v = if rproc then some v.notifyid else none

module _ (env : Env) where
  -- The status is only for the tracepoint.
  unfoldable pub irq_config_event : VelocitorState → VelocitorState
  irq_config_event s =
      let (status, s1) = readl reg_fw_status s in writel env (2 ^ irq_vec_config) reg_irq_ack s1

  -- The error that is traced, and whether the core is told of a crash.
  unfoldable pub irq_error_event : Bool → VelocitorState → (VelocitorError × Bool) × VelocitorState
  unfolding error_read
  irq_error_event rproc s =
      let (error, s1) = error_read s in
      ((error, rproc), writel env (2 ^ irq_vec_error) reg_irq_ack s1)
