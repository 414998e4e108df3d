-- ===== src/Device/Trace.antt =====
-- Device-local memory and the firmware trace ring of qemu-device/velocitor.c: the 32-bit accessors
-- and `velocitor_trace`.
pub mod Words
pub mod Ring
use linux_pci_driver.Common.{
  ℕ, zero, suc, ◌+◌, ◌-◌, ◌*◌, ◌/◌, ◌%◌, ◌^◌, leb, ◌==◌, if◌then◌else◌, List, ◌∷◌, [], ◌++◌, take,
  replicate, le32, to_le16, to_le32, to_le64, store, load,
}
use linux_pci_driver.Hw.{
  trace_entry, trace_entries, trace_hdr_size, trace_off_head, trace_off_tail, trace_off_dropped,
}
use linux_pci_driver.Device.State.{VelocitorState, Env, Message, add32}

-- `mem[off / 4]` of the memory seen as 32-bit words.
unfoldable pub mem_read32 : (ℕ → ℕ) → ℕ → ℕ
unfolding load
mem_read32 m off = le32 (load m (off / 4 * 4) 4) 0

unfoldable pub mem_write32 : (ℕ → ℕ) → ℕ → ℕ → ℕ → ℕ
mem_write32 m off v = store m (off / 4 * 4) (to_le32 v)

-- `struct VelocitorTraceEntry`: timestamp, level, engine, seq and 112 bytes of text, cut to leave
-- room for its terminator and zeroed behind.
unfoldable pub trace_bytes : ℕ → ℕ → ℕ → ℕ → List ℕ → List ℕ
trace_bytes timestamp level engine seq text =
    to_le64 timestamp
    ++ (to_le16 level
        ++ (to_le16 engine ++ (to_le32 seq ++ take 112 (take 111 text ++ replicate 112 0))))

-- The unread entry that a full ring loses is counted.
unfoldable pub count_dropped : ℕ → ℕ → ℕ → (ℕ → ℕ) → ℕ → ℕ
count_dropped da head tail m =
    let off = add32 da trace_off_dropped in
    if leb trace_entries ((head + 2 ^ 32 - tail) % 2 ^ 32)
    then mem_write32 m off (add32 (mem_read32 m off) 1)
    else m

-- The entry goes to its slot before the head is published.
unfoldable pub append_entry : ℕ → ℕ → ℕ → List ℕ → (ℕ → ℕ) → ℕ → ℕ
append_entry da head tail entry m =
    let slot = head % trace_entries in
    let m1 = store m (da + trace_hdr_size + slot * trace_entry) entry in
    mem_write32 (count_dropped da head tail m1) (add32 da trace_off_head) (add32 head 1)

module _ (env : Env) where
  unfoldable pub trace : ℕ → ℕ → ℕ → Message → VelocitorState → VelocitorState
  trace level engine seq msg s =
      let head = mem_read32 s.mem (add32 s.trace_da trace_off_head) in
      let tail = mem_read32 s.mem (add32 s.trace_da trace_off_tail) in
      let now = (s.clock + 2 ^ 64 - s.trace_epoch) % 2 ^ 64 in
      let entry = trace_bytes now level engine seq (env.vsnprintf msg) in
      if s.trace_da == 0
      then s
      else record s { mem = append_entry s.trace_da head tail entry s.mem }
