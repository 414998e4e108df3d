-- ===== src/Device/Tests/Witnesses.antt =====
-- The theorems about qemu-device/velocitor.c at concrete devices.
use linux_pci_driver.Common.{
  ℕ, ◌+◌, ◌-◌, ◌≤◌, true, false, List, [], ◌∷◌, ◌++◌, ◌≡◌, refl, inl, arith, store, load, to_le32,
  to_le64,
}
use linux_pci_driver.Hw as Hw
use linux_pci_driver.Device.State.{VelocitorState}
use linux_pci_driver.Device.Trace.{mem_read32}
use linux_pci_driver.Device.Allocator.{
  alloc_block, alloc_sized, alloc_pick_node, pick_any, node_free, node_end, node_base, take_block,
  alloc_reset, bad_handle, free_block, stat_fill,
}
use linux_pci_driver.Device.Allocator.Sound.{
  HeapOk, live_count, alloc_reset-HeapOk, alloc_block-HeapOk,
}
use linux_pci_driver.Device.Allocator.Blocks.{
  Apart, block_of, block_bounds, Granted, alloc_block_lem,
}
use linux_pci_driver.Device.Allocator.Session.{
  HeapCall, allocs, frees, call, run_calls, free_block_once,
}
use linux_pci_driver.Device.Allocator.Session.Lives.{from_reset, live_blocks}
use linux_pci_driver.Device.Firmware.{fw_verify, boot_done}
use linux_pci_driver.Device.Firmware.Boot.{Verdict, good_header, fw_verify_lem, boot_done-stale}
use linux_pci_driver.Device.Error.First.{Fault}
use linux_pci_driver.Device.Data.{data_serve, failed, engine_drain}
use linux_pci_driver.Device.Data.Confined.{Foreign, engine_drain-confined}
use linux_pci_driver.Device.Sweep.{vq_service}
use linux_pci_driver.Device.Bar0.{bar0_write}
use linux_pci_driver.Device.Life.{device_reset, Run, writes, here, next}
use linux_pci_driver.Device.Life.Keeps.{IsSound}
use linux_pci_driver.Device.Life.Config.{SameConfig, vq_service-SameConfig}
use linux_pci_driver.Device.Life.Reached.{Run-device_reset}
use linux_pci_driver.Device.Allocator.Stat.{stat_fill_lem}
use linux_pci_driver.Device.Tests.{bus, cold, running, small, one_block, two_blocks, empty_heap}

-- The register writes of a driver that describes the first engine queue and enables it.
abbrev write : ℕ → ℕ → VelocitorState → VelocitorState
write addr val s = bar0_write bus addr val 4 s

abbrev selected : VelocitorState
selected = write 0x100 2 (device_reset cold)

abbrev sized : VelocitorState
sized = write 0x108 16 selected

abbrev with_desc : VelocitorState
with_desc = write 0x110 0x1000 sized

abbrev with_avail : VelocitorState
with_avail = write 0x118 0x2000 with_desc

abbrev with_used : VelocitorState
with_used = write 0x120 0x3000 with_avail

abbrev with_vector : VelocitorState
with_vector = write 0x128 2 with_used

abbrev enabled : VelocitorState
enabled = write 0x10C 1 with_vector

enabled-Run : Run bus (device_reset cold) enabled
enabled-Run =
    next
      (next
        (next
          (next
            (next (next (next here (writes 0x100 2 4)) (writes 0x108 16 4)) (writes 0x110 0x1000 4))
            (writes 0x118 0x2000 4))
          (writes 0x120 0x3000 4))
        (writes 0x128 2 4))
      (writes 0x10C 1 4)

Run-device_reset_example : IsSound enabled
Run-device_reset_example = Run-device_reset bus cold enabled tt enabled-Run

running_ok : HeapOk running.heap
running_ok = alloc_reset-HeapOk empty_heap

one_ok : HeapOk one_block.heap
one_ok = alloc_block-HeapOk bus small running running_ok

two_ok : HeapOk two_blocks.heap
two_ok = alloc_block-HeapOk bus small one_block one_ok

first_live : bad_handle two_blocks.heap 1 ≡ false
unfolding bad_handle alloc_block alloc_sized alloc_pick_node pick_any node_free node_end node_base
    take_block alloc_reset
first_live = refl

second_live : bad_handle two_blocks.heap 2 ≡ false
unfolding bad_handle alloc_block alloc_sized alloc_pick_node pick_any node_free node_end node_base
    take_block alloc_reset
second_live = refl

-- A session of one ALLOC, and one that goes on with two and frees the first of these.
abbrev one_call : List HeapCall
one_call = allocs small ∷ []

abbrev three_calls : List HeapCall
three_calls = allocs small ∷ allocs small ∷ frees 2 ∷ []

live_at_first : bad_handle (from_reset bus one_call cold).heap 1 ≡ false
unfolding bad_handle alloc_block alloc_sized alloc_pick_node pick_any node_free node_end node_base
    take_block alloc_reset run_calls call
live_at_first = refl

live_at_last :
    (bad_handle (run_calls bus three_calls (from_reset bus one_call cold)).heap 1 ≡ false)
    × (bad_handle (run_calls bus three_calls (from_reset bus one_call cold)).heap 3 ≡ false)
unfolding bad_handle alloc_block alloc_sized alloc_pick_node pick_any node_free node_end node_base
    take_block alloc_reset run_calls call free_block
live_at_last = (refl, refl)

live_blocks_example :
    (block_of (run_calls bus three_calls (from_reset bus one_call cold)).heap 1
      ≡ block_of (from_reset bus one_call cold).heap 1)
    × (Hw.aperture_size ≤ (block_of (from_reset bus one_call cold).heap 1).offset)
    × ((block_of (from_reset bus one_call cold).heap 1).offset
          + (block_of (from_reset bus one_call cold).heap 1).size
        ≤ Hw.mem_size)
    × Apart
        (block_of (from_reset bus one_call cold).heap 1)
        (block_of (run_calls bus three_calls (from_reset bus one_call cold)).heap 3)
live_blocks_example =
    live_blocks bus one_call three_calls cold 1 3 live_at_first live_at_last.0 live_at_last.1
      (λ e. absurd (omega (arith, e)))

alloc_block_example : Granted small one_block (alloc_block bus small one_block)
alloc_block_example = alloc_block_lem bus small one_block one_ok

free_block_example :
    ((free_block bus 1 two_blocks).0 ≡ 0)
    × ((free_block bus 1
          (run_calls bus (allocs small ∷ frees 2 ∷ []) (free_block bus 1 two_blocks).1)).0
        ≡ Hw.einval)
free_block_example =
    free_block_once bus 1 (allocs small ∷ frees 2 ∷ []) two_blocks two_ok first_live

one_trace : one_block.trace_da ≡ 0x10000
unfolding alloc_block alloc_sized alloc_pick_node pick_any node_free node_end node_base take_block
    alloc_reset
one_trace = refl

header-Foreign : Foreign one_block.trace_da one_block.heap Hw.fw_hdr_da
header-Foreign = record {
  ring = inl (omega (arith, one_trace));
  blocks = λ at n inside.
      let (low, high) = block_bounds one_block.heap inside.handle one_ok inside.live in
      inl (omega (arith, low, inside.low));
}

-- The copy request of the tests leaves the firmware header alone.
engine_drain_example :
    ((engine_drain bus 2 Hw.vq_engine0 one_block).1.mem Hw.fw_hdr_da ≡ one_block.mem Hw.fw_hdr_da)
    × ((engine_drain bus 2 Hw.vq_engine0 one_block).1.heap ≡ one_block.heap)
    × ((engine_drain bus 2 Hw.vq_engine0 one_block).1.fw ≡ one_block.fw)
engine_drain_example =
    engine_drain-confined bus 2 Hw.vq_engine0 Hw.fw_hdr_da one_block
      (omega (arith, one_trace), omega (arith, one_trace)) header-Foreign

-- The device with the engine queue waiting for a service.
abbrev waiting : VelocitorState
waiting = record one_block { queues = record (one_block.queues) { vq_sweep = 4 } }

vq_service_example : SameConfig waiting (vq_service bus 2 waiting)
vq_service_example = vq_service-SameConfig bus 2 waiting

-- Device memory with the header of an image that the device runs.
abbrev loaded : VelocitorState
loaded = record cold {
  mem =
      store cold.mem Hw.fw_hdr_da
        (to_le32 Hw.fw_magic ++ (to_le32 Hw.fw_abi ++ (to_le32 0x10000 ++ to_le32 Hw.trace_size)));
}

fw_verify_example : Verdict (good_header loaded.mem) loaded (fw_verify bus loaded)
fw_verify_example = fw_verify_lem bus loaded

loaded_good : good_header loaded.mem ≡ true
unfolding good_header mem_read32 load store
loaded_good = refl

two_generation : two_blocks.generation ≡ 1
unfolding alloc_block alloc_sized alloc_pick_node pick_any node_free node_end node_base take_block
    alloc_reset
two_generation = refl

-- A request of generation 1, to a device that boots into generation 2.
abbrev old_request : List ℕ
old_request = to_le32 7 ++ (to_le32 1 ++ (to_le64 1 ++ []))

boot_done_example :
    ((boot_done bus two_blocks).fw_status ≡ Hw.fw_status_running)
    × (bad_handle (boot_done bus two_blocks).heap 1 ≡ true)
    × ((data_serve bus 2 16 old_request (boot_done bus two_blocks)).0 ≡ failed Hw.estale)
boot_done_example =
    boot_done-stale bus 2 16 1 old_request two_blocks (omega (arith, two_generation))
      (omega (arith, two_generation))

abbrev fault : ℕ → Fault
fault code = record { code = code; info = 1; notifyid = 7; handle = 3 }

-- A device whose bring-up DMA engine is to fetch the payload.
abbrev fetching : VelocitorState
fetching = record running {
  dma = record (running.dma) {
    dma_addr_lo = 0x6000;
    dma_dev = Hw.node0_base;
    dma_len = 4;
    dma_ctl = Hw.dbg_dma_h2d;
  };
}

payload_read : bus.pci_dma_read [] 0x6000 4 ≡ (true, 11 ∷ 22 ∷ 33 ∷ 44 ∷ [])
unfolding load store
payload_read = refl

stat_fill_example :
    ((stat_fill two_blocks).free 0 + two_blocks.node_bump 0 ≡ node_end 0)
    × ((stat_fill two_blocks).free 0 ≤ (stat_fill two_blocks).capacity 0)
    × ((stat_fill two_blocks).live_handles
        ≡ live_count two_blocks.alloc (two_blocks.next_handle - 1))
stat_fill_example = stat_fill_lem two_blocks 0 two_ok (omega arith)
