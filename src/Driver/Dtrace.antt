-- ===== src/Driver/Dtrace.antt =====
-- module/src/device-trace.c: `velocitor_dtrace_debugfs_open`, which takes what is unread out of the
-- trace ring of the firmware through BAR2.
pub mod Consuming
pub mod Newest
use linux_pci_driver.Common.{
  ℕ, zero, suc, ◌+◌, ◌-◌, ◌*◌, ◌/◌, ◌%◌, ◌^◌, min, ltb, ◌==◌, if◌then◌else◌, Bool, not, ◌⊎◌, inl,
  inr, List, [], ◌∷◌, load, store, le32, to_le32,
}
use linux_pci_driver.Hw.{
  trace_entry, trace_entries, trace_hdr_size, trace_off_head, trace_off_tail, trace_off_dropped,
  bar2_window_off, enodev, enomem,
}
use linux_pci_driver.Device.State.{VelocitorState}
use linux_pci_driver.Driver.Io.{bar2_byte}

-- `readl` and `writel` on BAR2.
abbrev pub bar2_readl : ℕ → VelocitorState → ℕ
bar2_readl off s = le32 (load (bar2_byte s) off 4) 0

unfoldable pub bar2_writel : ℕ → ℕ → VelocitorState → VelocitorState
bar2_writel val off s =
    let at = if ltb off bar2_window_off then off else s.win_base + (off - bar2_window_off) in
    record s { mem = store s.mem at (to_le32 val) }

-- `struct velocitor_dtrace_header`, with the entries behind it.
pub record Snapshot : Type 0 where
  pub skipped : ℕ
  pub dropped : ℕ
  pub tail : ℕ
  pub head : ℕ
  pub count : ℕ
  pub entries : List (List ℕ)

abbrev pub sub32 : ℕ → ℕ → ℕ
sub32 a b = (a + 2 ^ 32 - b) % 2 ^ 32

-- The copies of `n` entries, from number `tail` on.
unfoldable pub copy_entries : ℕ → ℕ → ℕ → VelocitorState → List (List ℕ)
copy_entries zero da tail s = []
copy_entries (suc n) da tail s =
    load (bar2_byte s) (da + trace_hdr_size + tail % trace_entries * trace_entry) trace_entry
    ∷ copy_entries n da ((tail + 1) % 2 ^ 32) s

-- The header and the entries, as the open puts them in its buffer.
unfoldable pub take_snapshot : ℕ → VelocitorState → Snapshot
take_snapshot da s =
    let head = bar2_readl (da + trace_off_head) s in
    let tail = bar2_readl (da + trace_off_tail) s in
    let unread = sub32 head tail in
    let count = min unread trace_entries in
    let full = ltb trace_entries unread in
    record {
      skipped = if full then unread - trace_entries else 0;
      dropped = bar2_readl (da + trace_off_dropped) s;
      tail = tail;
      head = head;
      count = count;
      entries = copy_entries count da (if full then sub32 head trace_entries else tail) s;
    }

-- With or without memory, and with the errno that `single_open` returns, or 0.
unfoldable pub dtrace_open : Bool → ℕ → ℕ → VelocitorState → (ℕ ⊎ Snapshot) × VelocitorState
dtrace_open memory opened da s =
    let head = bar2_readl (da + trace_off_head) s in
    if da == 0
    then (inl enodev, s)
    else if not memory
    then (inl enomem, s)
    else if not (opened == 0)
    then (inl opened, s)
    else (inr (take_snapshot da s), bar2_writel head (da + trace_off_tail) s)
