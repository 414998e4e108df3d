-- ===== src/Device/Window.antt =====
-- The sliding window of qemu-device/velocitor.c: `velocitor_window_promote`,
-- `velocitor_window_write_base` and the power-up pattern of `velocitor_mem_fill_pattern`.
pub mod Protocol
use linux_pci_driver.Common.{
  ℕ, zero, suc, ◌+◌, ◌-◌, ◌*◌, ◌/◌, ◌%◌, ◌^◌, ltb, ◌==◌, if◌then◌else◌, not, ◌||◌, bit_and,
  test_bit, complement,
}
use linux_pci_driver.Hw.{mem_size, window_size, err_inject_win_ignore}
use linux_pci_driver.Hw.Reg.{cnt_win_move, cnt_err_range}
use linux_pci_driver.Device.State.{VelocitorState, Window, Inject, count}
use linux_pci_driver.Device.Trace.{mem_write32}

-- The alias offset of the window region is `win_base` itself.
unfoldable pub window_promote : VelocitorState → VelocitorState
window_promote s =
    if s.win_pending == s.win_base
    then s
    else count cnt_win_move 1 (record s { win = record (s.win) { win_base = s.win_pending } })

-- `base & (VEL_WINDOW_SIZE - 1)` of a power of two is the remainder.
unfoldable pub window_write_base : ℕ → VelocitorState → VelocitorState
window_write_base base s =
    if test_bit s.err_inject err_inject_win_ignore
    then record s {
      inject = record (s.inject) {
        err_inject = bit_and s.err_inject (complement 32 (2 ^ err_inject_win_ignore));
      };
    }
    else if not (base % window_size == 0) || ltb (mem_size - window_size) base
    then count cnt_err_range 1 s
    else record s { win = record (s.win) { win_pending = base } }

-- The first `n` words, each its own offset.
unfoldable pub fill_words : ℕ → (ℕ → ℕ) → ℕ → ℕ
fill_words zero m = m
fill_words (suc n) m = mem_write32 (fill_words n m) (n * 4) (n * 4)

unfoldable pub mem_fill_pattern : (ℕ → ℕ) → ℕ → ℕ
mem_fill_pattern m = fill_words (mem_size / 4) m
