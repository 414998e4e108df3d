-- ===== src/Device/Tests.antt =====
-- Runs of the model on concrete devices: a power-up, a queue that a driver describes and enables, a
-- heap with two blocks, a copy request in host memory; and the theorems at these.
pub mod Witnesses
use linux_pci_driver.Common.{
  ℕ, ◌+◌, ◌*◌, ◌/◌, ◌%◌, ◌^◌, ltb, leb, ◌==◌, if◌then◌else◌, Bool, true, false, Option, none, some,
  List, [], ◌∷◌, ◌++◌, ◌≡◌, refl, load, store, to_le16, to_le32, to_le64, update,
}
use linux_pci_driver.Hw as Hw
use linux_pci_driver.Hw.Reg.{decode}
use linux_pci_driver.Device.State.{
  VelocitorState, VelocitorQueue, VelocitorAlloc, Env, Access, Message, Window, Irq, Firmware, Dma,
  Rsc, Queues, Err, Heap, Inject, Machine,
}
use linux_pci_driver.Device.Trace.{
  trace, mem_read32, mem_write32, append_entry, count_dropped, trace_bytes,
}
use linux_pci_driver.Device.Allocator.{
  AllocReq, alloc_block, alloc_sized, alloc_pick_node, pick_any, node_free, node_end, node_base,
  take_block, alloc_reset, bad_handle, Result, ok, err,
}
use linux_pci_driver.Device.Irq.{raise}
use linux_pci_driver.Device.Bus.{pci_read, pci_write, pci_read_mem}
use linux_pci_driver.Device.Monad as Monad
use linux_pci_driver.Device.Queue as Queue
use linux_pci_driver.Device.Data as Data
use linux_pci_driver.Device.Data.{engine_drain}
use linux_pci_driver.Device.Life.{no_queue, device_reset}

-- The memory of the host: a request with its two descriptors, published in a ring, and its payload.
abbrev pub host : ℕ → ℕ
host =
    store
      (store
        (store (store (λ i. 0) 0x1000 (to_le64 0x4000 ++ (to_le32 48 ++ (to_le16 1 ++ to_le16 1))))
          0x1010 (to_le64 0x5000 ++ (to_le32 24 ++ (to_le16 2 ++ to_le16 0))))
        0x2002 (to_le16 1))
      0x4000
      (to_le32 7
        ++ (to_le32 1
            ++ (to_le64 1 ++ (to_le64 1 ++ (to_le64 0 ++ (to_le64 0x6000 ++ to_le64 4))))))

abbrev pub host_bytes : ℕ → ℕ
host_bytes = store host 0x6000 (11 ∷ 22 ∷ 33 ∷ 44 ∷ [])

-- A bus that always works, over that memory.
abbrev pub bus : Env
bus = record {
  pci_dma_read = λ done iova len. (true, load host_bytes iova len);
  pci_dma_write = λ done iova len bytes. true;
  vsnprintf = λ m. [];
}

abbrev pub empty_heap : Heap
empty_heap = record {
  node_bump = λ n. 0;
  next_handle = 0;
  live_handles = 0;
  alloc = λ i. record { offset = 0; size = 0; node = 0; live = 0 };
}

-- A device before its first reset.
abbrev pub cold : VelocitorState
cold = record {
  scratch = 0;
  mem = λ i. 0;
  cnt = λ i. 0;
  cnt_snap = λ i. 0;
  win = record { win_base = 0; win_pending = 0 };
  irq = record { irq_status = 0; irq_mask = 0 };
  fw = record {
    reset = 1;
    fw_status = 0;
    fw_abi = 0;
    generation = 0;
    trace_da = 0;
    trace_len = 0;
    trace_epoch = 0;
    boot_timer = none;
  };
  dma = record {
    dma_timer = none;
    dma_addr_lo = 0;
    dma_addr_hi = 0;
    dma_dev = 0;
    dma_len = 0;
    dma_ctl = 0;
    dma_status = 0;
  };
  rsc = record { rsc_addr_lo = 0; rsc_addr_hi = 0; rsc_len = 0; rsc_valid = 0 };
  queues = record {
    vq_select = 0;
    vq = λ q. no_queue;
    rpmsg_announced = false;
    vq_sweep = 0;
    vq_timer = none;
  };
  err = record {
    err_code = 0;
    err_info_lo = 0;
    err_info_hi = 0;
    err_notifyid = 0;
    err_handle = 0;
    err_generation = 0;
    err_dropped = 0;
  };
  heap = empty_heap;
  inject = record { err_inject = 0; err_inject_arg = 0 };
  machine = record { msix_enabled = true; clock = 0; messages = []; accesses = [] };
}

-- A running device of generation 1 with an empty heap, and an engine queue with a published request.
abbrev pub running : VelocitorState
running = record cold {
  fw = record (cold.fw) {
    reset = 0;
    fw_status = Hw.fw_status_running;
    fw_abi = Hw.fw_abi;
    generation = 1;
    trace_da = 0x10000;
    trace_len = Hw.trace_size;
  };
  heap = alloc_reset empty_heap;
  queues = record (cold.queues) {
    vq = update cold.vq Hw.vq_engine0 (record no_queue {
      num = 4;
      enable = 1;
      desc_lo = 0x1000;
      avail_lo = 0x2000;
      used_lo = 0x3000;
      msix_vector = 2;
      notifyid = 7;
    });
  };
}

abbrev pub small : AllocReq
small = record { size = 100; dtype = 0; node = Hw.node_any }

abbrev pub one_block : VelocitorState
one_block = (alloc_block bus small running).1

abbrev pub two_blocks : VelocitorState
two_blocks = (alloc_block bus small one_block).1

-- The second block begins where the first, rounded up to 256 bytes, ends.
second_block : (two_blocks.alloc 1).offset ≡ Hw.node0_base + 256
unfolding alloc_block alloc_sized alloc_pick_node pick_any node_free node_end node_base take_block
    alloc_reset
second_block = refl

-- The copy request brings its four bytes from host memory into the block of its handle.
copy_arrives :
    load (engine_drain bus 2 Hw.vq_engine0 one_block).1.mem Hw.node0_base 4 ≡ 11 ∷ 22 ∷ 33 ∷ 44 ∷ []
unfolding engine_drain Data.engine_one Data.engine_answer Data.data_serve Data.data_copy
    Data.copy_block Data.data_charge Queue.host_read Queue.host_read_mem Queue.host_write
    Queue.vq_desc Queue.next_head Queue.vq_pop_head Queue.vq_push Queue.out_of_reach Monad.run
    pci_read pci_write pci_read_mem raise trace append_entry count_dropped trace_bytes mem_read32
    mem_write32 load store bad_handle alloc_block alloc_sized alloc_pick_node pick_any node_free
    node_end node_base take_block alloc_reset
copy_arrives = refl
