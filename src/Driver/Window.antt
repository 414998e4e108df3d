-- ===== src/Driver/Window.antt =====
-- module/src/window.c: `velocitor_window_seek` and `velocitor_window_read`.
pub mod Reading
use linux_pci_driver.Common.{
  ℕ, zero, suc, ◌+◌, ◌-◌, ◌*◌, ◌/◌, ◌^◌, min, ltb, leb, ◌==◌, if◌then◌else◌, Bool, not, ◌||◌,
  Option, none, some, List, [], ◌++◌, load,
}
use linux_pci_driver.Hw.{window_size, mem_size, bar2_window_off, einval, eio}
use linux_pci_driver.Hw.Offsets.{reg_win_base}
use linux_pci_driver.Device.State.{VelocitorState, Env}
use linux_pci_driver.Driver.State.{VelocitorDev}
use linux_pci_driver.Driver.Io.{readl, writel, bar2_byte}

-- The driver and the device.
abbrev pub Both : Type 0
Both = VelocitorDev × VelocitorState

-- What a read has put into its buffer, and the state then.
pub record Delivery : Type 0 where
  pub err : ℕ
  pub bytes : List ℕ
  pub both : Both

module _ (env : Env) where
  unfoldable pub window_seek : ℕ → Both → Bool × Both
  window_seek offset (d, s) =
      let (position, s1) = readl reg_win_base (writel env offset reg_win_base s) in
      (offset == position, (record d { window_base = position }, s1))

  -- The loop, with `fuel` rounds at most; `none` when they do not suffice.
  unfoldable pub read_windows : ℕ → ℕ → ℕ → ℕ → List ℕ → Both → Option Delivery
  read_windows zero window size done bytes b =
      if ltb done size then none else some (record { err = 0; bytes = bytes; both = b })
  read_windows (suc fuel) window size done bytes b =
      let next = window + window_size in
      let (found, b1) = window_seek next b in
      let todo = min (size - done) window_size in
      let copied = bytes ++ load (bar2_byte b1.1) bar2_window_off todo in
      let rest = read_windows fuel next size (done + todo) copied b1 in
      if not (ltb done size)
      then some (record { err = 0; bytes = bytes; both = b })
      else if not found
      then some (record { err = eio; bytes = bytes; both = b1 })
      else rest

  -- The first window, which the offset may enter in the middle. `size_t` has 64 bits.
  unfoldable pub window_read : ℕ → ℕ → ℕ → Both → Option Delivery
  window_read fuel offset size b =
      let window = offset / window_size * window_size in
      let (found, b1) = window_seek window b in
      let done = min size (window_size + window - offset) in
      let bytes = load (bar2_byte b1.1) (bar2_window_off + offset - window) done in
      if leb (2 ^ 64) (offset + size) || ltb mem_size (offset + size)
      then some (record { err = einval; bytes = []; both = b })
      else if not found
      then some (record { err = eio; bytes = []; both = b1 })
      else read_windows fuel window size done bytes b1
