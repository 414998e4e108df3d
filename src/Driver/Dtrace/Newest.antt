-- ===== src/Driver/Dtrace/Newest.antt =====
-- A line that the firmware of qemu-device/velocitor.c traces, as module/src/device-trace.c reads it.
use linux_pci_driver.Common.{
  ℕ, zero, suc, ◌+◌, ◌*◌, ◌/◌, ◌%◌, ◌^◌, ◌≤◌, ◌<◌, min, leb, ltb, false, ◌≡◌, inl, refl, sym, ap,
  ◌∙◌, arith, List, [], load, store, le32, get_or, length,
}
use linux_pci_driver.Hw.{trace_entry, trace_entries, trace_hdr_size, trace_off_head, trace_off_tail}
use linux_pci_driver.Device.State.{VelocitorState}
use linux_pci_driver.Device.Trace.{mem_read32, append_entry, count_dropped}
use linux_pci_driver.Device.Trace.Words.{mem_read32-other}
use linux_pci_driver.Device.Trace.Ring.{append_entry_lem}
use linux_pci_driver.Device.Data.Confined.{TraceAt, store-Outside}
use linux_pci_driver.Driver.Io.{bar2_byte}
use linux_pci_driver.Driver.Window.Reading.{load-shift}
use linux_pci_driver.Driver.Dtrace.{sub32, copy_entries, take_snapshot}
use linux_pci_driver.Driver.Dtrace.Consuming.{low_load, header_low}

entry_at : ℕ → ℕ → VelocitorState → List ℕ
entry_at da n s =
    load (bar2_byte s) (da + trace_hdr_size + n % trace_entries * trace_entry) trace_entry

nth-copy_entries :
    (n i da tail : ℕ) (s : VelocitorState)
    → i < n
    → tail < 2 ^ 32
    → get_or (copy_entries n da tail s) i [] ≡ entry_at da ((tail + i) % 2 ^ 32) s
unfolding copy_entries entry_at
nth-copy_entries zero i da tail s lt small = absurd (omega arith)
nth-copy_entries (suc n) zero da tail s lt small =
    let same : (tail + 0) % 2 ^ 32 ≡ tail = omega arith in rw same refl
nth-copy_entries (suc n) (suc i) da tail s lt small =
    let same : ((tail + 1) % 2 ^ 32 + i) % 2 ^ 32 ≡ (tail + suc i) % 2 ^ 32 = omega arith in
    nth-copy_entries n i da ((tail + 1) % 2 ^ 32) s (omega arith) (omega arith)
    ∙ ap (λ k. entry_at da k s) same

-- What is stored above a word leaves the word.
low_read :
    (m : ℕ → ℕ) (slot off : ℕ) (entry : List ℕ)
    → off / 4 * 4 + 4 ≤ slot
    → mem_read32 (store m slot entry) off ≡ mem_read32 m off
unfolding mem_read32
low_read m slot off entry below =
    ap (λ l. le32 l 0)
      (load-shift (store m slot entry) m (off / 4 * 4) (off / 4 * 4) 4
        (λ i lt. store-Outside m slot entry (off / 4 * 4 + i) (inl (omega arith))))

-- A line that finds room leaves the tail of the ring.
tail_kept :
    (da head tail : ℕ) (entry : List ℕ) (m : ℕ → ℕ)
    → TraceAt da
    → sub32 head tail < trace_entries
    → mem_read32 (append_entry da head tail entry m) (da + trace_off_tail)
      ≡ mem_read32 m (da + trace_off_tail)
unfolding append_entry count_dropped
tail_kept da head tail entry m (even, fits) room =
    let slot = da + trace_hdr_size + head % trace_entries * trace_entry in
    let fresh : leb trace_entries (sub32 head tail) ≡ false = ground arith in
    mem_read32-other _ (da + trace_off_tail) ((da + trace_off_head) % 2 ^ 32) _ (omega arith)
    ∙ rw fresh (low_read m slot (da + trace_off_tail) entry (omega arith))

word_bound : (m : ℕ → ℕ) (off : ℕ) → mem_read32 m off < 2 ^ 32
unfolding mem_read32
word_bound m off = omega arith

one_more :
    (head tail : ℕ)
    → head < 2 ^ 32
    → tail < 2 ^ 32
    → sub32 head tail < trace_entries
    → (sub32 ((head + 1) % 2 ^ 32) tail ≡ sub32 head tail + 1)
      × (ltb trace_entries (sub32 head tail + 1) ≡ false)
one_more head tail h t room = (omega arith, ground arith)

newest : (head tail : ℕ) → head < 2 ^ 32 → tail < 2 ^ 32 → (tail + sub32 head tail) % 2 ^ 32 ≡ head
newest head tail h t = omega arith

read_slot :
    (da n : ℕ) (entry : List ℕ) (s : VelocitorState)
    → TraceAt da
    → length entry ≡ trace_entry
    → load s.mem (da + trace_hdr_size + n % trace_entries * trace_entry) (length entry) ≡ entry
    → entry_at da n s ≡ entry
unfolding entry_at
read_slot da n entry s (even, fits) whole stored =
    let slot = da + trace_hdr_size + n % trace_entries * trace_entry in
    low_load s slot trace_entry (omega arith) ∙ ap (load s.mem slot) (sym whole) ∙ stored

-- A line is read back. When the ring of an aligned trace buffer has room for it, the entry that the
-- firmware appends is the last one of what the next read of the driver returns, byte for byte,
-- behind all that was unread before.
pub append_entry-take_snapshot :
    (da : ℕ) (entry : List ℕ) (s : VelocitorState)
    → TraceAt da
    → length entry ≡ trace_entry
    → sub32 (mem_read32 s.mem (da + trace_off_head)) (mem_read32 s.mem (da + trace_off_tail))
      < trace_entries
    → let head = mem_read32 s.mem (da + trace_off_head) in
      let tail = mem_read32 s.mem (da + trace_off_tail) in
      let x = take_snapshot da (record s { mem = append_entry da head tail entry s.mem }) in
      (x.count ≡ sub32 head tail + 1) × (get_or x.entries (sub32 head tail) [] ≡ entry)
unfolding take_snapshot
append_entry-take_snapshot da entry s at whole room =
    let head = mem_read32 s.mem (da + trace_off_head) in
    let tail = mem_read32 s.mem (da + trace_off_tail) in
    let t = record s { mem = append_entry da head tail entry s.mem } in
    let (published, stored) = append_entry_lem da head tail entry s.mem at in
    let head' = header_low t da trace_off_head at refl (omega arith) ∙ published in
    let tail' =
      header_low t da trace_off_tail at refl (omega arith)
      ∙ tail_kept da head tail entry s.mem at room in
    let unread = sub32 head tail in
    let (grown, some_room) = one_more head tail (word_bound s.mem _) (word_bound s.mem _) room in
    let last : (tail + unread) % 2 ^ 32 ≡ head =
      newest head tail (word_bound s.mem _) (word_bound s.mem _) in
    let all : min (unread + 1) trace_entries ≡ unread + 1 = omega arith in
    rw (head', tail', grown, some_room, all)
      (
        refl,
        nth-copy_entries (unread + 1) unread da tail t (omega arith) (word_bound s.mem _)
            ∙ ap (λ k. entry_at da k t) last
            ∙ read_slot da head entry t at whole stored,
      )
