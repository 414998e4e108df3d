-- ===== src/Device/Bus.antt =====
-- Host memory as the device of qemu-device/velocitor.c reaches it, and the bring-up DMA engine:
-- `velocitor_dma_fail`, `velocitor_dma_run` and `velocitor_dma_start`.
pub mod Transfer
use linux_pci_driver.Common.{
  ℕ, ◌+◌, ◌*◌, ◌^◌, ltb, leb, ◌==◌, if◌then◌else◌, Bool, not, ◌&&◌, List, ◌∷◌, take, some, store,
  load,
}
use linux_pci_driver.Hw.{
  dma_bits, mem_size, err_none, err_dma_width, err_out_of_bounds, dbg_dma_h2d, dbg_dma_d2h,
  dma_status_busy, dma_status_done, dma_status_error,
}
use linux_pci_driver.Hw.Reg.{
  cnt_dma_rd, cnt_dma_wr, cnt_bytes_rd_lo, cnt_bytes_wr_lo, cnt_err_range,
}
use linux_pci_driver.Device.State.{VelocitorState, Env, Access, dma_read, dma_write, count}
use linux_pci_driver.Device.Error.{error_set}

-- `((uint64_t)hi << 32) | lo` of two 32-bit words.
abbrev pub wide : ℕ → ℕ → ℕ
wide hi lo = hi * 2 ^ 32 + lo

abbrev pub note_access : Access → VelocitorState → VelocitorState
note_access a s = record s { machine = record (s.machine) { accesses = a ∷ s.accesses } }

module _ (env : Env) where
  -- `pci_dma_read` into a buffer, with what it left in the buffer.
  unfoldable pub pci_read : ℕ → ℕ → VelocitorState → (Bool × List ℕ) × VelocitorState
  pci_read iova len s = (env.pci_dma_read s.accesses iova len, note_access (dma_read iova len) s)

  unfoldable pub pci_write : ℕ → ℕ → List ℕ → VelocitorState → Bool × VelocitorState
  pci_write iova len bytes s =
      (env.pci_dma_write s.accesses iova len bytes, note_access (dma_write iova len bytes) s)

  -- `pci_dma_read` straight into device memory: at most `len` bytes arrive, also if it fails.
  unfoldable pub pci_read_mem : ℕ → ℕ → ℕ → VelocitorState → Bool × VelocitorState
  unfolding pci_read
  pci_read_mem iova at len s =
      let ((good, bytes), s1) = pci_read iova len s in
      (good, record s1 { mem = store s1.mem at (take len bytes) })

  unfoldable pub dma_fail : ℕ → ℕ → VelocitorState → VelocitorState
  dma_fail code info s =
      let s1 = error_set env code info s in
      record s1 { dma = record (s1.dma) { dma_status = dma_status_error } }

  -- The two directions of `velocitor_dma_run` with their counters, and whether the bus took them.
  unfoldable pub dma_h2d : ℕ → VelocitorState → Bool × VelocitorState
  unfolding pci_read_mem
  dma_h2d iova s =
      let (good, s1) = pci_read_mem iova s.dma_dev s.dma_len s in
      (good, count cnt_bytes_rd_lo s.dma_len (count cnt_dma_rd 1 s1))

  unfoldable pub dma_d2h : ℕ → VelocitorState → Bool × VelocitorState
  unfolding pci_write
  dma_d2h iova s =
      let (good, s1) = pci_write iova s.dma_len (load s.mem s.dma_dev s.dma_len) s in
      (good, count cnt_bytes_wr_lo s.dma_len (count cnt_dma_wr 1 s1))

  unfoldable pub dma_run : VelocitorState → VelocitorState
  dma_run s =
      let iova = wide s.dma_addr_hi s.dma_addr_lo in
      let (good, s1) = if s.dma_ctl == dbg_dma_h2d then dma_h2d iova s else dma_d2h iova s in
      if leb (2 ^ dma_bits) iova
      then dma_fail err_dma_width iova s
      else if ltb mem_size (s.dma_dev + s.dma_len)
      then count cnt_err_range 1 (dma_fail err_out_of_bounds s.dma_dev s)
      else if good
      then record s1 { dma = record (s1.dma) { dma_status = dma_status_done } }
      else dma_fail err_dma_width iova s1

abbrev pub dma_latency_ns : ℕ
dma_latency_ns = 1000

unfoldable pub dma_start : ℕ → VelocitorState → VelocitorState
dma_start ctl s = if not (ctl == dbg_dma_h2d) && not (ctl == dbg_dma_d2h) then s else record s {
  err = record (s.err) { err_code = err_none };
  dma = record (s.dma) {
    dma_ctl = ctl;
    dma_status = dma_status_busy;
    dma_timer = some (s.clock + dma_latency_ns);
  };
}
