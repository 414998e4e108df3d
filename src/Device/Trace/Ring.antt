-- ===== src/Device/Trace/Ring.antt =====
-- What a line of the firmware trace of qemu-device/velocitor.c leaves in its ring for the reader.
use linux_pci_driver.Common.{
  ℕ, ◌+◌, ◌-◌, ◌*◌, ◌%◌, ◌^◌, ◌≤◌, ◌<◌, leb, ◌≡◌, inr, refl, subst, ◌∙◌, arith, List, store, load,
  length, choose,
}
use linux_pci_driver.Hw.{
  trace_entry, trace_entries, trace_hdr_size, trace_off_head, trace_off_dropped,
}
use linux_pci_driver.Device.Trace.{mem_read32, mem_write32, append_entry, count_dropped}
use linux_pci_driver.Device.Trace.Words.{mem_read32-mem_write32}
use linux_pci_driver.Device.Bus.Transfer.{load_same, load-store}
use linux_pci_driver.Device.Data.Confined.{TraceAt, word-Outside}

-- A header word is below every slot.
word_below :
    (m : ℕ → ℕ) (da off v a : ℕ)
    → TraceAt da
    → off < trace_hdr_size
    → da + trace_hdr_size ≤ a
    → mem_write32 m ((da + off) % 2 ^ 32) v a ≡ m a
word_below m da off v a (even, low) small le = word-Outside m _ v a (inr (omega arith))

dropped_below :
    (m : ℕ → ℕ) (da head tail a : ℕ)
    → TraceAt da
    → da + trace_hdr_size ≤ a
    → count_dropped da head tail m a ≡ m a
unfolding count_dropped
dropped_below m da head tail a at le =
    choose (λ (f : ℕ → ℕ). f a ≡ m a) (leb trace_entries ((head + 2 ^ 32 - tail) % 2 ^ 32))
      (word_below m da trace_off_dropped _ a at (omega arith) le) refl

head_address : (da : ℕ) → TraceAt da → (da + trace_off_head) % 2 ^ 32 ≡ da + trace_off_head
head_address da (even, low) = omega arith

-- With a trace ring that is aligned to words and lies in the fixed aperture, a line of the trace
-- advances the head of the ring by one, modulo 2^32, and leaves its entry in the slot of the old
-- head, whether the ring was full or not.
pub append_entry_lem :
    (da head tail : ℕ) (entry : List ℕ) (m : ℕ → ℕ)
    → TraceAt da
    → let after = append_entry da head tail entry m in
      (mem_read32 after (da + trace_off_head) ≡ (head + 1) % 2 ^ 32)
      × (load after (da + trace_hdr_size + head % trace_entries * trace_entry) (length entry)
          ≡ entry)
unfolding append_entry
append_entry_lem da head tail entry m at =
    let slot = da + trace_hdr_size + head % trace_entries * trace_entry in
    let m1 = store m slot entry in
    let m2 = count_dropped da head tail m1 in
    let here : (da + trace_off_head) % 2 ^ 32 ≡ da + trace_off_head = head_address da at in
    (
      subst
          (λ (o : ℕ).
            mem_read32 (mem_write32 m2 ((da + trace_off_head) % 2 ^ 32) ((head + 1) % 2 ^ 32)) o
            ≡ (head + 1) % 2 ^ 32)
          here (mem_read32-mem_write32 m2 _ _ ∙ omega arith),
      load_same (mem_write32 m2 ((da + trace_off_head) % 2 ^ 32) ((head + 1) % 2 ^ 32)) m1 slot
            (length entry)
            (λ a le.
              word_below m2 da trace_off_head _ a at (omega arith) (omega arith)
              ∙ dropped_below m1 da head tail a at (omega arith))
          ∙ load-store m slot entry,
    )
