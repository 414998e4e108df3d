-- ===== src/Driver/Remoteproc/Power.antt =====
-- Start, stop and kick of module/src/remoteproc.c, with its translation of device addresses. The
-- driver's structure, its handle table and the device are three states.
pub mod Held
use linux_pci_driver.Common.{
  ℕ, ◌+◌, ◌≤◌, ◌^◌, ltb, leb, ◌==◌, if◌then◌else◌, Bool, true, false, not, ◌||◌, Option, none, some,
}
use linux_pci_driver.Hw.{
  fw_status_running, fw_hdr_da, fw_hdr_off_trace_da, fw_abi, trace_entry, trace_off_entry_size,
  err_fw_header, aperture_size, eio, enodev, etimedout,
}
use linux_pci_driver.Hw.Offsets.{
  reg_reset, reg_fw_status, reg_generation, reg_err_code, reg_fw_abi, reg_doorbell, reg_rsc_addr_lo,
  reg_rsc_addr_hi, reg_rsc_len, reg_rsc_valid,
}
use linux_pci_driver.Device.State.{VelocitorState, Env}
use linux_pci_driver.Driver.Io.{readl, writel}
use linux_pci_driver.Driver.State.{VelocitorDev}
use linux_pci_driver.Driver.Vring.{lower_32_bits, upper_32_bits, vring_invalidate, vring_activate}
use linux_pci_driver.Driver.Handles.{Handles, handles_regenerate}
use linux_pci_driver.Driver.Dtrace.{bar2_readl}
use linux_pci_driver.Driver.Remoteproc.{walk_cached_table}

abbrev pub Card : Type 0
Card = VelocitorDev × Handles × VelocitorState

-- The offset in BAR2, for a range in the fixed aperture.
unfoldable pub rproc_datova : ℕ → ℕ → Option ℕ
rproc_datova da len =
    if leb (2 ^ 64) (da + len) || ltb aperture_size (da + len) then none else some da

module _ (env : Env) where
  unfoldable pub rproc_stop : VelocitorState → VelocitorState
  rproc_stop s = writel env 0 reg_rsc_valid (writel env 1 reg_reset s)

  unfoldable pub rproc_kick : ℕ → VelocitorState → VelocitorState
  rproc_kick notifyid s = writel env notifyid reg_doorbell s

  -- The table published, and RESET released.
  unfoldable pub publish : ℕ → ℕ → VelocitorState → VelocitorState
  publish dma table_sz s = writel env 0 reg_reset (
      writel env 1 reg_rsc_valid (
        writel env table_sz reg_rsc_len (
          writel env (upper_32_bits dma) reg_rsc_addr_hi
            (writel env (lower_32_bits dma) reg_rsc_addr_lo s))))

  -- The error exit.
  unfoldable pub give_up : ℕ → Card → ℕ × Card
  give_up err (d, t, s) = (err, (d, t, rproc_stop s))

  module _ (avail_off used_off : ℕ) where
    -- The cached table walked, and the rings handed to the device.
    unfoldable pub take_rings : Option (ℕ → ℕ) → Card → ℕ × Card
    unfolding give_up
    take_rings table (d, t, s) =
        let (err, vqs) = walk_cached_table table d.vqs in
        let d1 = record d { vqs = vqs } in
        if not (err == 0)
        then give_up err (d1, t, s)
        else (0, (d1, t, vring_activate env avail_off used_off d1 s))

    -- What follows on a device that runs.
    unfoldable pub take_over : Option (ℕ → ℕ) → Card → ℕ × Card
    unfolding give_up take_rings
    take_over table (d, t, s) =
        let (generation, s1) = readl reg_generation s in
        let da = bar2_readl (fw_hdr_da + fw_hdr_off_trace_da) s1 in
        let d1 = record d { rproc_generation = generation; dtrace_da = da } in
        let t1 = handles_regenerate generation t in
        let (abi, s2) = readl reg_fw_abi s1 in
        if not (fw_abi == abi) || not (trace_entry == bar2_readl (da + trace_off_entry_size) s2)
        then give_up enodev (d1, t1, s2)
        else take_rings table (d1, t1, s2)

    -- `velocitor_rproc_start`; `poll` is all that the device does until `readl_poll_timeout` reads
    -- its status for the last time.
    unfoldable pub rproc_start :
        ℕ → Option (ℕ → ℕ) → (VelocitorState → VelocitorState) → Card → ℕ × Card
    unfolding publish give_up take_over
    rproc_start table_sz table poll (d, t, s) =
        let d1 = vring_invalidate d in
        let (status, s1) = readl reg_fw_status (poll (publish d.rsc_dma table_sz s)) in
        let (code, s2) = readl reg_err_code s1 in
        if ltb status fw_status_running
        then give_up (if err_fw_header == code then enodev else etimedout) (d1, t, s2)
        else if not (fw_status_running == status)
        then give_up eio (d1, t, s1)
        else take_over table (d1, t, s1)
