-- ===== src/Device/Error.antt =====
-- The qualified error block of qemu-device/velocitor.c: `velocitor_error_qualify` and
-- `velocitor_error_set`.
pub mod First
use linux_pci_driver.Common.{ℕ, ◌/◌, ◌%◌, ◌^◌, if◌then◌else◌, test_bit}
use linux_pci_driver.Hw.{
  irq_vec_error, notifyid_none, trace_level_error, trace_engine_none, trace_seq_none,
}
use linux_pci_driver.Device.State.{VelocitorState, Err, Env, Message, error_line, add32}
use linux_pci_driver.Device.Trace.{trace}

module _ (env : Env) where
  -- While the error latch is up, the block is kept and the error counted.
  unfoldable pub error_qualify : ℕ → ℕ → ℕ → ℕ → VelocitorState → VelocitorState
  error_qualify code info notifyid handle s =
      if test_bit s.irq_status irq_vec_error
      then record s { err = record (s.err) { err_dropped = add32 s.err_dropped 1 } }
      else trace env trace_level_error trace_engine_none trace_seq_none
          (error_line code info notifyid handle)
          (record s {
            err = record (s.err) {
              err_code = code;
              err_info_lo = info % 2 ^ 32;
              err_info_hi = info / 2 ^ 32 % 2 ^ 32;
              err_notifyid = notifyid;
              err_handle = handle;
              err_generation = s.generation;
            };
          })

  unfoldable pub error_set : ℕ → ℕ → VelocitorState → VelocitorState
  error_set code info = error_qualify code info notifyid_none 0
