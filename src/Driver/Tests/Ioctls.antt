-- ===== src/Driver/Tests/Ioctls.antt =====
-- The theorems about the ioctls of module/src/cdev.c and the loading of module/src/lifecycle.c, at
-- concrete states.
use linux_pci_driver.Common.{
  ℕ, ◌==◌, if◌then◌else◌, ◌≡◌, refl, arith, inr, true, false, Option, none, some, ◌++◌, [], load,
  store, update, to_le16, to_le32, to_le64,
}
use linux_pci_driver.Device.State.{VelocitorState, Env}
use linux_pci_driver.Device.Life.{no_queue}
use linux_pci_driver.Device.Trace.{trace}
use linux_pci_driver.Device.Bus.{pci_read, pci_write}
use linux_pci_driver.Device.Monad.{◌>>=◌, after, stop, modify, get, pure, when_else, attempt}
use linux_pci_driver.Device.Queue.{vq_pop, vq_push, next_head, host_read, host_write, out_of_reach}
use linux_pci_driver.Device.Rpmsg.{ctrl_serve, rpmsg_send}
use linux_pci_driver.Driver.Handles.Live as Live
use linux_pci_driver.Driver.Cdev.Requests.Alloc as Alloc
use linux_pci_driver.Driver.Cdev.Requests.Free as Free
use linux_pci_driver.Hw as Hw
use linux_pci_driver.Device.Tests.{running, small, empty_heap}
use linux_pci_driver.Device.Allocator.{
  alloc_block, free_block, alloc_sized, alloc_pick_node, pick_any, node_free, node_end, node_base,
  take_block, alloc_reset, bad_handle,
}
use linux_pci_driver.Device.Allocator.Sound.{alloc_reset-HeapOk}
use linux_pci_driver.Driver.Tests.{one_idr, probed}
use linux_pci_driver.Driver.Ctrl.{Ctrl}
use linux_pci_driver.Driver.Handles.{handles_erase, handles_insert, xa_insert}
use linux_pci_driver.Driver.Lifecycle.{Results, init, exit, nothing, everything}
use linux_pci_driver.Driver.Lifecycle.Unwinding.{init-exit}
use linux_pci_driver.Driver.Cdev.{Kernel, IoctlHandle, ioctl_alloc, ioctl_free}
use linux_pci_driver.Driver.Cdev.Exchange.{served}
use linux_pci_driver.Driver.Cdev.Requests.{Ready}
use linux_pci_driver.Driver.Cdev.Requests.Alloc.{handed_out, ioctl_alloc-served}
use linux_pci_driver.Driver.Cdev.Requests.Free.{ioctl_free-served}

-- Host memory with one empty buffer of 512 bytes, at 0x8000, published in the receive ring.
abbrev ring_bytes : ℕ → ℕ
ring_bytes =
    store (store (λ i. 0) 0x1000 (to_le64 0x8000 ++ (to_le32 512 ++ (to_le16 2 ++ to_le16 0))))
      0x2002 (to_le16 1)

abbrev ring_bus : Env
ring_bus = record {
  pci_dma_read = λ done iova len. (true, load ring_bytes iova len);
  pci_dma_write = λ done iova len bytes. true;
  vsnprintf = λ m. [];
}

-- The running device, with that ring.
abbrev listening : VelocitorState
listening = record running {
  queues = record (running.queues) {
    vq = update running.vq Hw.vq_ctrl_rx (record no_queue {
      num = 4;
      enable = 1;
      desc_lo = 0x1000;
      avail_lo = 0x2000;
      used_lo = 0x3000;
      msix_vector = 1;
      notifyid = 5;
    });
  };
}

abbrev card : Kernel one_idr
card = record {
  ctrl = probed;
  handles = record { generation = listening.generation; entries = λ h. none };
  generation = listening.generation;
  usage_flags = true;
  device = listening;
}

up : Ready one_idr card 1 (some 0)
up = record { up = refl; there = refl; number = refl; seq_lt = omega arith }

-- The device answers, and the reply arrives.
alloc_is_heard : Alloc.is_heard one_idr ring_bus 1024 true card 1 (some 0) small ≡ true
unfolding ctrl_serve alloc_block alloc_sized alloc_pick_node pick_any node_free node_end node_base
    take_block alloc_reset rpmsg_send trace vq_pop next_head host_read host_write pci_read pci_write
    out_of_reach vq_push ◌>>=◌ after stop modify get pure when_else attempt load store
alloc_is_heard = refl

ioctl_alloc_example :
    ((c : Ctrl (Option ℕ)) × (ioctl_alloc one_idr true
          (λ b. 0)
          (served one_idr ring_bus 1024 true 16)
          true
          true
          (0, false)
          (inr small)
          card
        ≡ (let out =
              handed_out one_idr true true
                (0, false)
                small.size
                (record card {
                  device = Alloc.after one_idr ring_bus 1024 true card 1 (some 0) small;
                })
                (alloc_block ring_bus small listening).0 in
            if Alloc.is_heard one_idr ring_bus 1024 true card 1 (some 0) small
            then some (out.0, record out.1 { ctrl = c })
            else none)))
    × ((Alloc.after one_idr ring_bus 1024 true card 1 (some 0) small).heap
        ≡ (alloc_block ring_bus small listening).1.heap)
ioctl_alloc_example =
    ioctl_alloc-served one_idr ring_bus 1024 true card 1 (some 0) true true (0, false) small up
      (alloc_reset-HeapOk empty_heap) (omega arith) (omega arith) (omega arith) (omega arith)

-- The card after an ALLOC: handle 1 is live on the device and in the table.
abbrev with_block : Kernel one_idr
with_block = record card {
  handles =
      Live.store_reply true true small.size (alloc_block ring_bus small listening).0 card.handles;
  device = (alloc_block ring_bus small listening).1;
}

abbrev first : IoctlHandle
first = record { addr = 1; node = 0; generation = 1 }

up_again : Ready one_idr with_block 1 (some 0)
up_again = record { up = refl; there = refl; number = refl; seq_lt = omega arith }

-- The handle is known to both, the device frees it, and its answer arrives.
first_is_live :
    ((handles_erase first.generation first.addr with_block.handles).0 ≡ 0)
    × ((free_block ring_bus first.addr with_block.device).0 ≡ 0)
unfolding handles_erase Live.store_reply handles_insert xa_insert alloc_block alloc_sized
    alloc_pick_node pick_any node_free node_end node_base take_block alloc_reset free_block
    bad_handle
first_is_live = (refl, refl)

free_is_heard : Free.is_heard one_idr ring_bus 1024 true with_block 1 (some 0) first ≡ true
unfolding ctrl_serve free_block alloc_block alloc_sized alloc_pick_node pick_any node_free node_end
    node_base take_block bad_handle alloc_reset rpmsg_send trace vq_pop next_head host_read
    host_write pci_read pci_write out_of_reach vq_push ◌>>=◌ after stop modify get pure when_else
    attempt load store
free_is_heard = refl

ioctl_free_example :
    ((c : Ctrl (Option ℕ)) × (ioctl_free one_idr true
          (λ b. 0)
          (served one_idr ring_bus 1024 true 8)
          (inr first)
          with_block
        ≡ (let erased = handles_erase first.generation first.addr with_block.handles in
            if erased.0 == 0
            then if Free.is_heard one_idr ring_bus 1024 true
                (record with_block { handles = erased.1 })
                1
                (some 0)
                first
              then some (
                ((free_block ring_bus first.addr with_block.device).0, none),
                record with_block {
                  ctrl = c;
                  handles = erased.1;
                  device =
                      Free.after one_idr ring_bus 1024 true
                        (record with_block { handles = erased.1 })
                        1
                        (some 0)
                        first;
                },
              )
              else none
            else some ((erased.0, none), with_block))))
    × ((Free.after one_idr ring_bus 1024 true with_block 1 (some 0) first).heap
        ≡ (free_block ring_bus first.addr with_block.device).1.heap)
ioctl_free_example =
    ioctl_free-served one_idr ring_bus 1024 true with_block 1 (some 0) first up_again (omega arith)

abbrev no_virtio : Results
no_virtio = record {
  class_create = 0;
  rpmsg_initialize = 0;
  virtio_initialize = Hw.enomem;
  register_driver = 0;
}

init_example : (init no_virtio nothing ≡ (Hw.enomem, nothing)) × (exit everything ≡ nothing)
init_example = init-exit no_virtio
