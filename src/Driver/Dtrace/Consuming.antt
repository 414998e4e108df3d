-- ===== src/Driver/Dtrace/Consuming.antt =====
-- What module/src/device-trace.c reads out of the trace ring of qemu-device/velocitor.c, and what is
-- left in the ring then.
use linux_pci_driver.Common.{
  ℕ, zero, suc, ◌+◌, ◌-◌, ◌*◌, ◌/◌, ◌%◌, ◌^◌, ◌≤◌, ◌<◌, ◌≢◌, min, ltb, ◌==◌, if◌then◌else◌, true,
  false, ◌≡◌, inr, refl, sym, ap, ◌∙◌, arith, load, le32, length, dchoose,
}
use linux_pci_driver.Hw.{
  aperture_size, trace_entries, trace_hdr_size, trace_off_head, trace_off_tail, bar2_window_off,
}
use linux_pci_driver.Device.State.{VelocitorState}
use linux_pci_driver.Device.Trace.{mem_read32, mem_write32}
use linux_pci_driver.Device.Trace.Words.{mem_read32-mem_write32, mem_read32-other}
use linux_pci_driver.Device.Data.Confined.{TraceAt}
use linux_pci_driver.Driver.Io.{bar2_byte}
use linux_pci_driver.Driver.Window.Reading.{load-shift}
use linux_pci_driver.Driver.Dtrace.{
  bar2_readl, bar2_writel, sub32, copy_entries, take_snapshot, dtrace_open,
}

-- The low half of BAR2 is the fixed aperture.
pub low_load :
    (s : VelocitorState) (off n : ℕ)
    → off + n ≤ aperture_size
    → load (bar2_byte s) off n ≡ load s.mem off n
unfolding bar2_byte
low_load s off n fits = load-shift (bar2_byte s) s.mem off off n (λ i lt.
    dchoose (λ (x : ℕ). x ≡ s.mem (off + i)) (ltb (off + i) bar2_window_off) (λ _. refl)
      (λ high. absurd (ground arith)))

low_word :
    (s : VelocitorState) (off : ℕ)
    → off % 4 ≡ 0
    → off + 4 ≤ aperture_size
    → bar2_readl off s ≡ mem_read32 s.mem off
unfolding mem_read32
low_word s off even fits =
    let same : off / 4 * 4 ≡ off = omega arith in
    ap (λ l. le32 l 0) (low_load s off 4 fits) ∙ ap (λ o. le32 (load s.mem o 4) 0) (sym same)

low_store :
    (s : VelocitorState) (off val : ℕ)
    → off % 4 ≡ 0
    → off + 4 ≤ aperture_size
    → (bar2_writel val off s).mem ≡ mem_write32 s.mem off val
unfolding bar2_writel mem_write32
low_store s off val even fits =
    let same : off / 4 * 4 ≡ off = omega arith in
    let low : ltb off bar2_window_off ≡ true = ground arith in rw (low, same) refl

-- A word of the header of the ring.
abbrev pub header_word : (ℕ → ℕ) → ℕ → ℕ → ℕ
header_word m da off = mem_read32 m (da + off)

pub header_low :
    (s : VelocitorState) (da off : ℕ)
    → TraceAt da
    → off % 4 ≡ 0
    → off < trace_hdr_size
    → bar2_readl (da + off) s ≡ header_word s.mem da off
header_low s da off (even, fits) four small = low_word s (da + off) (omega arith) (omega arith)

length-copy_entries : (n da tail : ℕ) (s : VelocitorState) → length (copy_entries n da tail s) ≡ n
unfolding copy_entries
length-copy_entries zero da tail s = refl
length-copy_entries (suc n) da tail s = ap suc (length-copy_entries n da ((tail + 1) % 2 ^ 32) s)

opened :
    (da : ℕ) (s : VelocitorState)
    → da ≢ 0
    → dtrace_open true 0 da s ≡ (
      inr (take_snapshot da s),
      bar2_writel (bar2_readl (da + trace_off_head) s) (da + trace_off_tail) s,
    )
unfolding dtrace_open
opened da s there = let some_da : (da == 0) ≡ false = ground arith in rw some_da refl

-- The words of the header after the tail was moved to the head.
emptied :
    (da : ℕ) (s : VelocitorState)
    → TraceAt da
    → let t = bar2_writel (bar2_readl (da + trace_off_head) s) (da + trace_off_tail) s in
      (bar2_readl (da + trace_off_head) t ≡ bar2_readl (da + trace_off_head) s)
      × (bar2_readl (da + trace_off_tail) t ≡ bar2_readl (da + trace_off_head) s)
emptied da s (even, fits) =
    let head = bar2_readl (da + trace_off_head) s in
    let t = bar2_writel head (da + trace_off_tail) s in
    let mem = low_store s (da + trace_off_tail) head (omega arith) (omega arith) in
    let at = low_word s (da + trace_off_head) (omega arith) (omega arith) in
    let bound : head < 2 ^ 32 = omega arith in
    (
      header_low t da trace_off_head (even, fits) refl (omega arith)
          ∙ ap (λ m. mem_read32 m (da + trace_off_head)) mem
          ∙ mem_read32-other s.mem (da + trace_off_head) (da + trace_off_tail) head (omega arith)
          ∙ sym at,
      header_low t da trace_off_tail (even, fits) refl (omega arith)
          ∙ ap (λ m. mem_read32 m (da + trace_off_tail)) mem
          ∙ mem_read32-mem_write32 s.mem (da + trace_off_tail) head
          ∙ omega (arith, bound),
    )

split_count :
    (u : ℕ) → min u trace_entries + (if ltb trace_entries u then u - trace_entries else 0) ≡ u
split_count u = ground arith

sub32_self : (a : ℕ) → sub32 a a ≡ 0
sub32_self a = omega arith

-- Reading takes everything out of the ring. With memory for it and an aligned ring in the fixed
-- aperture, the open returns as many entries as the ring held unread, up to the 511 that it has
-- room for, counts the others as skipped, and afterwards the ring has nothing unread: its tail is
-- its head.
pub dtrace_open_lem :
    (da : ℕ) (s : VelocitorState)
    → TraceAt da
    → da ≢ 0
    → let r = dtrace_open true 0 da s in
      let x = take_snapshot da s in
      let unread =
        sub32 (mem_read32 s.mem (da + trace_off_head)) (mem_read32 s.mem (da + trace_off_tail)) in
      (r.0 ≡ inr x)
      × (x.count ≡ min unread trace_entries)
      × (length x.entries ≡ x.count)
      × (x.count + x.skipped ≡ unread)
      × (sub32 (bar2_readl (da + trace_off_head) r.1) (bar2_readl (da + trace_off_tail) r.1) ≡ 0)
unfolding take_snapshot
dtrace_open_lem da s at there =
    let head = header_low s da trace_off_head at refl (omega arith) in
    let tail = header_low s da trace_off_tail at refl (omega arith) in
    let (kept, moved) = emptied da s at in
    let unread =
      sub32 (mem_read32 s.mem (da + trace_off_head)) (mem_read32 s.mem (da + trace_off_tail)) in
    rw (opened da s there, kept, moved, head, tail)
      (refl, refl, length-copy_entries _ da _ s, split_count unread, sub32_self _)
