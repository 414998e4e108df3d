-- ===== src/Device/Allocator/Stat.antt =====
-- What STAT of qemu-device/velocitor.c reports of the heap.
use linux_pci_driver.Common.{ℕ, ◌+◌, ◌-◌, ◌≤◌, ◌<◌, ◌≡◌, arith}
use linux_pci_driver.Hw.{nodes}
use linux_pci_driver.Device.State.{VelocitorState}
use linux_pci_driver.Device.Allocator.{node_base, node_end, node_free, stat_fill}
use linux_pci_driver.Device.Allocator.Sound.{HeapOk, live_count}

-- In a well-formed allocator, STAT reports for each of the two nodes the bytes between its bump
-- pointer and its end, with no wrap-around and never more than its capacity, and as many live
-- handles as the table has live entries.
pub stat_fill_lem :
    (s : VelocitorState) (n : ℕ)
    → HeapOk s.heap
    → n < nodes
    → ((stat_fill s).free n + s.node_bump n ≡ node_end n)
      × ((stat_fill s).free n ≤ (stat_fill s).capacity n)
      × ((stat_fill s).live_handles ≡ live_count s.alloc (s.next_handle - 1))
unfolding stat_fill node_free node_end node_base
stat_fill_lem s n v lt =
    let low = v.base_le n lt in
    let high = v.bump_le n lt in (ground (arith, low, high), ground (arith, low, high), v.counted)
