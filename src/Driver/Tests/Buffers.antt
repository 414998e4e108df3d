-- ===== src/Driver/Tests/Buffers.antt =====
-- The theorems about the rings, the handles, the trace and the copies of module/src, at concrete
-- states.
use linux_pci_driver.Common.{
  ℕ, ◌+◌, ◌*◌, ◌<◌, ◌≡◌, ◌⊎◌, refl, ap, ◌∙◌, inl, inr, if◌then◌else◌, min, get_or, arith, Bool,
  true, false, none, some, List, [], load, length, drop,
}
use linux_pci_driver.Hw as Hw
use linux_pci_driver.Device.Tests.{bus, running}
use linux_pci_driver.Driver.Tests.{driver}
use linux_pci_driver.Device.Tests.{cold, small}
use linux_pci_driver.Device.Allocator.{
  alloc_block, free_block, bad_handle, alloc_reset, alloc_sized, alloc_pick_node, pick_any,
  node_free, node_end, node_base, take_block,
}
use linux_pci_driver.Device.Allocator.Sound.{alloc_reset-HeapOk}
use linux_pci_driver.Device.Trace.{mem_read32, append_entry}
use linux_pci_driver.Device.Data.{parse_req, parse_copy, req_hdr_size}
use linux_pci_driver.Device.Tests.{empty_heap}
use linux_pci_driver.Driver.Data as Data
use linux_pci_driver.Driver.Data.Copy.{copy_bytes-parse}
use linux_pci_driver.Driver.Dtrace.{take_snapshot, dtrace_open, sub32, bar2_readl}
use linux_pci_driver.Driver.Dtrace.Consuming.{dtrace_open_lem}
use linux_pci_driver.Driver.Dtrace.Newest.{append_entry-take_snapshot}
use linux_pci_driver.Driver.Handles.{Handle, Handles, handles_insert, xa_insert}
use linux_pci_driver.Driver.Handles.Live as Live
use linux_pci_driver.Driver.Vring.{vring_initialize, vring_activate}
use linux_pci_driver.Driver.Vring.Activation.{IsPlaced, vring_activate-Served}
use linux_pci_driver.Driver.Vring.Describing.{Served}

abbrev ring_memory : ℕ → ℕ
ring_memory q = 0x100000 * (q + 1)

placed : (p : ℕ) → p < 4 → IsPlaced 4096 8192 p ((vring_initialize ring_memory driver).vqs p)
unfolding vring_initialize
placed p lt = record {
  index_is = refl;
  vector_is = refl;
  somewhere = omega arith;
  avail_fits = omega arith;
  used_fits = omega arith;
}

vring_activate_example :
    Served 0x300000 4096 8192 3
      ((vring_activate bus 4096 8192 (vring_initialize ring_memory driver) cold).vq 2)
unfolding vring_initialize
vring_activate_example =
    vring_activate-Served bus 4096 8192 (vring_initialize ring_memory driver) cold 2 placed
      (λ p lt. refl) (omega arith)

abbrev no_handles : Handles
no_handles = record { generation = running.generation; entries = λ h. none }

abbrev granted : Live.Pair
granted = (
  Live.store_reply true true small.size (alloc_block bus small running).0 no_handles,
  (alloc_block bus small running).1,
)

abbrev first : Handle
first = record { handle = 1; generation = 1; size = 100; node = 0; dev_offset = 16777216 }

first_known : (granted.0.entries 1 ≡ some first) × (granted.0.generation ≡ granted.1.generation)
unfolding Live.store_reply alloc_block alloc_sized alloc_pick_node pick_any node_free node_end
    node_base take_block bad_handle alloc_reset handles_insert xa_insert
first_known = (refl, refl)

known_handle_example : (bad_handle granted.1.heap 1 ≡ false) × ((free_block bus 1 granted.1).0 ≡ 0)
known_handle_example =
    Live.known_handle bus no_handles running granted 1 first (alloc_reset-HeapOk empty_heap)
      (λ k. refl) (Live.next Live.here (Live.allocs true true small no_handles running))
      first_known.0 first_known.1

dtrace_open_example :
    let r = dtrace_open true 0 0x10000 running in
    let x = take_snapshot 0x10000 running in
    let unread =
      sub32
        (mem_read32 running.mem (0x10000 + Hw.trace_off_head))
        (mem_read32 running.mem (0x10000 + Hw.trace_off_tail)) in
    (r.0 ≡ inr x)
    × (x.count ≡ min unread Hw.trace_entries)
    × (length x.entries ≡ x.count)
    × (x.count + x.skipped ≡ unread)
    × (sub32
          (bar2_readl (0x10000 + Hw.trace_off_head) r.1)
          (bar2_readl (0x10000 + Hw.trace_off_tail) r.1)
        ≡ 0)
dtrace_open_example = dtrace_open_lem 0x10000 running (refl, omega arith) (λ e. omega (arith, e))

-- A line of a's.
abbrev line : List ℕ
line = load (λ i. 97) 0 128

take_snapshot_example :
    let x =
      take_snapshot 0x10000 (record running { mem = append_entry 0x10000 0 0 line running.mem }) in
    (x.count ≡ 1) × (get_or x.entries 0 [] ≡ line)
unfolding load mem_read32
take_snapshot_example =
    append_entry-take_snapshot 0x10000 line running (refl, omega arith) refl (omega arith)

copy_bytes_example :
    let b = Data.copy_bytes 7 1 1 3 64 0x6000 4 in
    (parse_req b ≡ record { seq = 7; generation = 1; op = 1 })
    × (parse_copy (drop req_hdr_size b)
        ≡ record { handle = 3; offset = 64; dma_addr = 0x6000; len = 4 })
copy_bytes_example =
    copy_bytes-parse 7 1 1 3 64 0x6000 4 (omega arith) (omega arith) (omega arith) (omega arith)
      (omega arith) (omega arith) (omega arith)

abbrev first_free : (ℕ → Bool) → ℕ → ℕ ⊎ ℕ
first_free used max = if used 0 then inl 28 else inr 0

abbrev ring_full : ℕ → List ℕ → ℕ
ring_full engine request = 28

abbrev idle : Data.Data
idle = record { seq = 0; slots = λ e i. false; posted = λ e. [] }

abbrev a_block : Handle
a_block = record { handle = 1; generation = 1; size = 64; node = 0; dev_offset = 0 }

picked : (taken : Bool) (k : ℕ) → first_free (λ i. taken) 0 ≡ inr k → (taken ≡ false) × (k ≡ 0)
picked true k e = absurd (cc e)
picked false k e = (refl, cc e)

picks_free : (used : ℕ → Bool) (max k : ℕ) → first_free used max ≡ inr k → used k ≡ false
picks_free used max k e = let (free, at) = picked (used 0) k e in ap used at ∙ free

ring_was_full :
    (Data.data_copy first_free ring_full 1 Hw.data_op_copy_h2d a_block 0 0x6000 4 idle).0 ≡ 28
unfolding Data.data_copy Data.copy_in Data.transaction_init Data.transaction_kick
ring_was_full = refl
