-- ===== src/Driver/Io.antt =====
-- How module/src reaches the device of qemu-device/velocitor.c: `readl` and `writel` on the mapping
-- of BAR0, and the bytes behind that of BAR2, whose high half shows device memory from WIN_BASE on.
-- Between two accesses of one function the device does nothing of its own.
use linux_pci_driver.Common.{ℕ, ◌+◌, ◌-◌, ltb, if◌then◌else◌}
use linux_pci_driver.Hw.{bar2_window_off}
use linux_pci_driver.Device.State.{VelocitorState, Env}
use linux_pci_driver.Device.Bar0.{bar0_read, bar0_write}

abbrev pub readl : ℕ → VelocitorState → ℕ × VelocitorState
readl addr s = bar0_read addr 4 s

abbrev pub writel : Env → ℕ → ℕ → VelocitorState → VelocitorState
writel env val addr s = bar0_write env addr val 4 s

-- The two aliases that `velocitor_realize` puts into BAR2.
unfoldable pub bar2_byte : VelocitorState → ℕ → ℕ
bar2_byte s off =
    if ltb off bar2_window_off then s.mem off else s.mem (s.win_base + (off - bar2_window_off))
