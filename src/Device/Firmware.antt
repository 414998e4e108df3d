-- ===== src/Device/Firmware.antt =====
-- The firmware life cycle of qemu-device/velocitor.c: `velocitor_fw_verify`, `velocitor_boot_done`,
-- `velocitor_reset_write`, and `velocitor_vq_purge`, which resets and crashes share.
pub mod Boot
use linux_pci_driver.Common.{
  ℕ, ◌+◌, ◌%◌, ltb, leb, ◌==◌, if◌then◌else◌, Bool, true, false, not, ◌||◌, Option, none, some,
  update,
}
use linux_pci_driver.Hw.{
  fw_magic, fw_abi, fw_hdr_da, fw_hdr_off_magic, fw_hdr_off_abi, fw_hdr_off_trace_da,
  fw_hdr_off_trace_len, fw_status_reset, fw_status_verified, fw_status_running, err_fw_header,
  irq_vec_error, trace_size, aperture_size, trace_off_entry_size, trace_entry, trace_level_info,
  trace_level_warn, trace_engine_none, trace_seq_none, vq_count,
}
use linux_pci_driver.Hw as Hw
use linux_pci_driver.Device.State.{
  VelocitorState, VelocitorQueue, Queues, Firmware, Rsc, Env, running_line, reset_line, add32,
}
use linux_pci_driver.Device.Irq.{raise}
use linux_pci_driver.Device.Trace.{trace, mem_read32, mem_write32}
use linux_pci_driver.Device.Error.{error_set}
use linux_pci_driver.Device.Allocator.{alloc_reset}

abbrev pub purge_queue : VelocitorQueue → VelocitorQueue
purge_queue q = record q { enable = 0; last_avail = 0; gfeatures = 0; vstatus = 0 }

-- The loop over the four queues.
unfoldable pub vq_purge : VelocitorState → VelocitorState
vq_purge s = record s {
  queues = record (s.queues) {
    rpmsg_announced = false;
    vq_sweep = 0;
    vq_timer = none;
    vq = λ q. if ltb q vq_count then purge_queue (s.vq q) else s.vq q;
  };
}

abbrev pub fw_boot_latency_ns : ℕ
fw_boot_latency_ns = 100000

-- Releasing RESET starts from nothing.
unfoldable pub fw_clear : VelocitorState → VelocitorState
fw_clear s = record s { fw = record (s.fw) { fw_status = fw_status_reset; fw_abi = 0 } }

unfoldable pub fw_accept : ℕ → ℕ → ℕ → VelocitorState → VelocitorState
fw_accept abi da len s = record s {
  fw = record (s.fw) {
    fw_abi = abi;
    trace_da = da;
    trace_len = len;
    trace_epoch = s.clock;
    fw_status = fw_status_verified;
    boot_timer = some (s.clock + fw_boot_latency_ns);
  };
}

module _ (env : Env) where
  -- A header that is refused qualifies an error and raises vector 5.
  unfoldable pub fw_refuse : ℕ → VelocitorState → VelocitorState
  fw_refuse info s = raise irq_vec_error (error_set env err_fw_header info s)

  unfoldable pub boot_done : VelocitorState → VelocitorState
  boot_done s =
      let s1 = record s {
        fw = record (s.fw) { fw_status = fw_status_running; generation = add32 s.generation 1 };
        heap = alloc_reset s.heap;
        mem = mem_write32 s.mem (add32 s.trace_da trace_off_entry_size) trace_entry;
      } in
      trace env trace_level_info trace_engine_none trace_seq_none (running_line s1.generation) s1

  unfoldable pub fw_verify : VelocitorState → VelocitorState
  unfolding fw_clear fw_accept fw_refuse
  fw_verify s =
      let magic = mem_read32 s.mem (fw_hdr_da + fw_hdr_off_magic) in
      let abi = mem_read32 s.mem (fw_hdr_da + fw_hdr_off_abi) in
      let da = mem_read32 s.mem (fw_hdr_da + fw_hdr_off_trace_da) in
      let len = mem_read32 s.mem (fw_hdr_da + fw_hdr_off_trace_len) in
      let s1 = fw_clear s in
      if not (magic == fw_magic) || not (abi == Hw.fw_abi)
      then fw_refuse magic s1
      else if not (len == trace_size) || ltb aperture_size (da + len)
      then fw_refuse da s1
      else fw_accept abi da len s1

  -- RESET asserted: deferred work, the queues, the shadow table, then the status.
  unfoldable pub reset_assert : VelocitorState → VelocitorState
  unfolding vq_purge
  reset_assert s =
      let s1 =
        trace env trace_level_warn trace_engine_none trace_seq_none (reset_line s.generation) s in
      let s2 = vq_purge (record s1 { fw = record (s1.fw) { boot_timer = none } }) in
      record s2 {
        rsc = record (s2.rsc) { rsc_valid = 0 };
        fw = record (s2.fw) {
          fw_status = fw_status_reset;
          fw_abi = 0;
          trace_da = 0;
          trace_len = 0;
        };
      }

  unfoldable pub reset_write : ℕ → VelocitorState → VelocitorState
  reset_write val s =
      let s1 = record s { fw = record (s.fw) { reset = val % 2 } } in
      if not (s1.reset == 0) then reset_assert s1 else fw_verify s1
