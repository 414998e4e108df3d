-- ===== src/Device/Bar0.antt =====
-- The register file of qemu-device/velocitor.c: `velocitor_access_ok`, `velocitor_vq_read`,
-- `velocitor_vq_write`, `velocitor_bar0_read` and `velocitor_bar0_write`. The switches on an offset
-- go by the register that `Hw.Reg.decode` finds there.
use linux_pci_driver.Common.{
  ℕ, ◌+◌, ◌-◌, ◌%◌, ◌^◌, leb, ◌==◌, if◌then◌else◌, Bool, not, ◌&&◌, none, bit_and, test_bit,
  complement,
}
use linux_pci_driver.Hw as Hw
use linux_pci_driver.Hw.Reg.{decode, Register, VqRegister}
use linux_pci_driver.Device.State.{VelocitorState, VelocitorQueue, Env, crashed_line, set_vq}
use linux_pci_driver.Device.Irq.{raise}
use linux_pci_driver.Device.Trace.{trace}
use linux_pci_driver.Device.Window.{window_promote, window_write_base}
use linux_pci_driver.Device.Bus.{dma_start}
use linux_pci_driver.Device.Firmware.{vq_purge, reset_write}
use linux_pci_driver.Device.Rsc.{rsc_publish}
use linux_pci_driver.Device.Sweep.{vq_enable, doorbell}

unfoldable pub access_ok : ℕ → ℕ → Bool
access_ok addr size = (size == 4) && (addr % 4 == 0)

abbrev pub all_ones32 : ℕ
all_ones32 = 2 ^ 32 - 1

abbrev pub all_ones64 : ℕ
all_ones64 = 2 ^ 64 - 1

unfoldable pub vq_field : VelocitorQueue → VqRegister → ℕ
vq_field v VqRegister.vq_num = v.num
vq_field v VqRegister.vq_enable = v.enable
vq_field v VqRegister.vq_desc_lo = v.desc_lo
vq_field v VqRegister.vq_desc_hi = v.desc_hi
vq_field v VqRegister.vq_avail_lo = v.avail_lo
vq_field v VqRegister.vq_avail_hi = v.avail_hi
vq_field v VqRegister.vq_used_lo = v.used_lo
vq_field v VqRegister.vq_used_hi = v.used_hi
vq_field v VqRegister.vq_msix_vector = v.msix_vector
vq_field v r = 0

unfoldable pub vq_read : VelocitorState → VqRegister → ℕ
unfolding vq_field
vq_read s VqRegister.vq_select = s.vq_select
vq_read s VqRegister.vq_num_max = Hw.vring_num
vq_read s r = vq_field (s.vq s.vq_select) r

-- The last switch of `velocitor_vq_write`, on the description of one queue.
unfoldable pub set_field : VqRegister → ℕ → VelocitorQueue → VelocitorQueue
set_field VqRegister.vq_num val v = record v { num = val }
set_field VqRegister.vq_desc_lo val v = record v { desc_lo = val }
set_field VqRegister.vq_desc_hi val v = record v { desc_hi = val }
set_field VqRegister.vq_avail_lo val v = record v { avail_lo = val }
set_field VqRegister.vq_avail_hi val v = record v { avail_hi = val }
set_field VqRegister.vq_used_lo val v = record v { used_lo = val }
set_field VqRegister.vq_used_hi val v = record v { used_hi = val }
set_field VqRegister.vq_msix_vector val v = record v { msix_vector = val }
set_field r val v = v

-- A described ring is frozen while its queue is enabled.
unfoldable pub vq_describe : VqRegister → ℕ → VelocitorState → VelocitorState
unfolding set_field
vq_describe r val s =
    let q = s.vq_select in
    if not ((s.vq q).enable == 0) then s else set_vq q (set_field r val (s.vq q)) s

-- The value, and the state behind the read: only WIN_BASE has an effect.
unfoldable pub reg_read : Register → VelocitorState → ℕ × VelocitorState
unfolding vq_read
reg_read (Register.counter i) s = (s.cnt_snap i, s)
reg_read (Register.window r) s = (vq_read s r, s)
reg_read Register.magic s = (Hw.magic, s)
reg_read Register.version s = (Hw.version, s)
reg_read Register.caps s = (Hw.cap_fp32 + Hw.cap_bf16 + Hw.cap_transpose, s)
reg_read Register.scratch s = (complement 32 s.scratch, s)
reg_read Register.mem_size s = (Hw.mem_size, s)
reg_read Register.topology s = (Hw.topology, s)
reg_read Register.dma_bits s = (Hw.dma_bits, s)
reg_read Register.win_base s = let t = window_promote s in (t.win_base, t)
reg_read Register.dbg_dma_addr_lo s = (s.dma_addr_lo, s)
reg_read Register.dbg_dma_addr_hi s = (s.dma_addr_hi, s)
reg_read Register.dbg_dma_dev s = (s.dma_dev, s)
reg_read Register.dbg_dma_len s = (s.dma_len, s)
reg_read Register.dbg_dma_status s = (s.dma_status, s)
reg_read Register.rsc_addr_lo s = (s.rsc_addr_lo, s)
reg_read Register.rsc_addr_hi s = (s.rsc_addr_hi, s)
reg_read Register.rsc_len s = (s.rsc_len, s)
reg_read Register.rsc_valid s = (s.rsc_valid, s)
reg_read Register.err_code s = (s.err_code, s)
reg_read Register.err_info_lo s = (s.err_info_lo, s)
reg_read Register.err_info_hi s = (s.err_info_hi, s)
reg_read Register.err_notifyid s = (s.err_notifyid, s)
reg_read Register.err_handle s = (s.err_handle, s)
reg_read Register.err_generation s = (s.err_generation, s)
reg_read Register.err_dropped s = (s.err_dropped, s)
reg_read Register.reset s = (s.reset, s)
reg_read Register.fw_status s = (s.fw_status, s)
reg_read Register.fw_abi s = (s.fw_abi, s)
reg_read Register.generation s = (s.generation, s)
reg_read Register.irq_status s = (s.irq_status, s)
reg_read Register.irq_mask s = (s.irq_mask, s)
reg_read Register.err_inject s = (s.err_inject, s)
reg_read Register.err_inject_arg s = (s.err_inject_arg, s)
reg_read Register.dbg_dma_ctl s = (all_ones32, s)
reg_read Register.irq_ack s = (all_ones32, s)
reg_read Register.doorbell s = (all_ones32, s)
reg_read Register.cnt_reset s = (all_ones32, s)
reg_read Register.cnt_snap s = (all_ones32, s)
reg_read Register.reserved s = (0, s)

unfoldable pub bar0_read : ℕ → ℕ → VelocitorState → ℕ × VelocitorState
unfolding reg_read access_ok
bar0_read addr size s = if access_ok addr size then reg_read (decode addr) s else (all_ones64, s)

-- Every counter frozen, or cleared, at once.
unfoldable pub snap_counters : VelocitorState → VelocitorState
snap_counters s = record s { cnt_snap = s.cnt }

unfoldable pub clear_counters : VelocitorState → VelocitorState
clear_counters s = record s { cnt = λ i. 0; cnt_snap = λ i. 0 }

module _ (env : Env) where
  unfoldable pub vq_write : VqRegister → ℕ → VelocitorState → VelocitorState
  unfolding vq_describe
  vq_write VqRegister.vq_select val s =
      if leb Hw.vq_count val then s else record s { queues = record (s.queues) { vq_select = val } }
  vq_write VqRegister.vq_num_max val s = s
  vq_write VqRegister.vq_enable val s = vq_enable env s.vq_select val s
  vq_write r val s = vq_describe r val s

  -- ERR_INJECT bit 2: the firmware crashes.
  unfoldable pub fw_crash : VelocitorState → VelocitorState
  fw_crash s =
      let s1 =
        trace env Hw.trace_level_error Hw.trace_engine_none Hw.trace_seq_none crashed_line s in
      let s2 = vq_purge (record s1 { fw = record (s1.fw) { boot_timer = none } }) in
      raise Hw.irq_vec_error
        (record s2 { fw = record (s2.fw) { fw_status = Hw.fw_status_crashed } })

  unfoldable pub inject_write : ℕ → VelocitorState → VelocitorState
  unfolding fw_crash
  inject_write val s =
      let s1 = record s { inject = record (s.inject) { err_inject = val } } in
      if test_bit val Hw.err_inject_fw_crash then fw_crash s1 else s1

  -- A write of the 32-bit `val`; what is read-only or reserved stays.
  unfoldable pub reg_write : Register → ℕ → VelocitorState → VelocitorState
  unfolding vq_write snap_counters clear_counters inject_write
  reg_write (Register.window r) val s = vq_write r val s
  reg_write Register.scratch val s = record s { scratch = val }
  reg_write Register.cnt_snap val s = if val % 2 == 0 then s else snap_counters s
  reg_write Register.cnt_reset val s = if val % 2 == 0 then s else clear_counters s
  reg_write Register.reset val s = reset_write env val s
  reg_write Register.win_base val s = window_write_base val s
  reg_write Register.dbg_dma_addr_lo val s = record s { dma = record (s.dma) { dma_addr_lo = val } }
  reg_write Register.dbg_dma_addr_hi val s = record s { dma = record (s.dma) { dma_addr_hi = val } }
  reg_write Register.dbg_dma_dev val s = record s { dma = record (s.dma) { dma_dev = val } }
  reg_write Register.dbg_dma_len val s = record s { dma = record (s.dma) { dma_len = val } }
  reg_write Register.dbg_dma_ctl val s = dma_start val s
  reg_write Register.rsc_addr_lo val s = record s { rsc = record (s.rsc) { rsc_addr_lo = val } }
  reg_write Register.rsc_addr_hi val s = record s { rsc = record (s.rsc) { rsc_addr_hi = val } }
  reg_write Register.rsc_len val s = record s { rsc = record (s.rsc) { rsc_len = val } }
  reg_write Register.rsc_valid val s = rsc_publish env val s
  reg_write Register.irq_mask val s = record s {
    irq = record (s.irq) { irq_mask = bit_and val Hw.irq_latched };
  }
  reg_write Register.irq_ack val s = record s {
    irq = record (s.irq) {
      irq_status = bit_and s.irq_status (complement 32 (bit_and val Hw.irq_latched));
    };
  }
  reg_write Register.doorbell val s = doorbell val s
  reg_write Register.err_inject_arg val s = record s {
    inject = record (s.inject) { err_inject_arg = val };
  }
  reg_write Register.err_inject val s = inject_write val s
  reg_write r val s = s

  unfoldable pub bar0_write : ℕ → ℕ → ℕ → VelocitorState → VelocitorState
  unfolding reg_write access_ok
  bar0_write addr val size s =
      if access_ok addr size then reg_write (decode addr) (val % 2 ^ 32) s else s
