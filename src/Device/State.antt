-- ===== src/Device/State.antt =====
-- `VelocitorState` of qemu-device/velocitor.c with the structures it holds, and what the model takes
-- from QEMU and libc. The one flat C structure is split into a record for each register block; the
-- fields keep the C names, and `s.irq_status` reads through the blocks.
use linux_pci_driver.Common.{ℕ, ◌+◌, ◌%◌, ◌^◌, update, Bool, Option, List}

-- One transfer over the PCI DMA address space: its address, its length, and the bytes written.
pub data Access : Type 0 where
  dma_read : ℕ → ℕ → Access
  dma_write : ℕ → ℕ → List ℕ → Access

-- The lines of the firmware trace: one constructor for each format string that the model passes on.
pub data Message : Type 0 where
  error_line : ℕ → ℕ → ℕ → ℕ → Message
  running_line : ℕ → Message
  reset_line : ℕ → Message
  announced_line : Message
  control_line : ℕ → ℕ → Message
  data_line : ℕ → ℕ → ℕ → Message
  swept_line : ℕ → ℕ → ℕ → ℕ → Message
  enabled_line : ℕ → ℕ → ℕ → ℕ → Message
  crashed_line : Message

-- What is not in this repository. `pci_dma_read` fills a buffer and says whether that worked;
-- `pci_dma_write` says whether it worked. Both may answer by all that was asked before, the newest
-- first, so a guest that changes its memory at any time is one of these. `vsnprintf` is the text.
pub record Env : Type 0 where
  pub pci_dma_read : List Access → ℕ → ℕ → Bool × List ℕ
  pub pci_dma_write : List Access → ℕ → ℕ → List ℕ → Bool
  pub vsnprintf : Message → List ℕ

pub record VelocitorQueue : Type 0 where
  pub num : ℕ
  pub enable : ℕ
  pub desc_lo : ℕ
  pub desc_hi : ℕ
  pub avail_lo : ℕ
  pub avail_hi : ℕ
  pub used_lo : ℕ
  pub used_hi : ℕ
  pub msix_vector : ℕ
  pub notifyid : ℕ
  pub vdev_off : ℕ
  pub gfeatures : ℕ
  pub vstatus : ℕ
  pub last_avail : ℕ

pub record VelocitorAlloc : Type 0 where
  pub offset : ℕ
  pub size : ℕ
  pub node : ℕ
  pub live : ℕ

-- The sliding window.
pub record Window : Type 0 where
  pub win_base : ℕ
  pub win_pending : ℕ

pub record Irq : Type 0 where
  pub irq_status : ℕ
  pub irq_mask : ℕ

-- The firmware life cycle. A timer is its expiry time, if it is armed.
pub record Firmware : Type 0 where
  pub reset : ℕ
  pub fw_status : ℕ
  pub fw_abi : ℕ
  pub generation : ℕ
  pub trace_da : ℕ
  pub trace_len : ℕ
  pub trace_epoch : ℕ
  pub boot_timer : Option ℕ

pub record Dma : Type 0 where
  pub dma_timer : Option ℕ
  pub dma_addr_lo : ℕ
  pub dma_addr_hi : ℕ
  pub dma_dev : ℕ
  pub dma_len : ℕ
  pub dma_ctl : ℕ
  pub dma_status : ℕ

-- The shadow resource table.
pub record Rsc : Type 0 where
  pub rsc_addr_lo : ℕ
  pub rsc_addr_hi : ℕ
  pub rsc_len : ℕ
  pub rsc_valid : ℕ

pub record Queues : Type 0 where
  pub vq_select : ℕ
  pub vq : ℕ → VelocitorQueue
  pub rpmsg_announced : Bool
  pub vq_sweep : ℕ
  pub vq_timer : Option ℕ

-- The qualified error.
pub record Err : Type 0 where
  pub err_code : ℕ
  pub err_info_lo : ℕ
  pub err_info_hi : ℕ
  pub err_notifyid : ℕ
  pub err_handle : ℕ
  pub err_generation : ℕ
  pub err_dropped : ℕ

pub record Heap : Type 0 where
  pub node_bump : ℕ → ℕ
  pub next_handle : ℕ
  pub live_handles : ℕ
  pub alloc : ℕ → VelocitorAlloc

pub record Inject : Type 0 where
  pub err_inject : ℕ
  pub err_inject_arg : ℕ

-- The machine around the device: whether the guest enabled MSI-X, the virtual clock, the messages
-- sent and the transfers made, newest first.
pub record Machine : Type 0 where
  pub msix_enabled : Bool
  pub clock : ℕ
  pub messages : List ℕ
  pub accesses : List Access

-- `mem` is the RAM behind `memory_region_get_ram_ptr`, by byte; `cnt` and `cnt_snap` are by index.
pub record VelocitorState : Type 0 where
  pub scratch : ℕ
  pub mem : ℕ → ℕ
  pub cnt : ℕ → ℕ
  pub cnt_snap : ℕ → ℕ
  pub win : Window
  pub open win use *
  pub irq : Irq
  pub open irq use *
  pub fw : Firmware
  pub open fw use *
  pub dma : Dma
  pub open dma use *
  pub rsc : Rsc
  pub open rsc use *
  pub queues : Queues
  pub open queues use *
  pub err : Err
  pub open err use *
  pub heap : Heap
  pub open heap use *
  pub inject : Inject
  pub open inject use *
  pub machine : Machine
  pub open machine use *

-- `++` on a `uint32_t`, and addition to one.
abbrev pub add32 : ℕ → ℕ → ℕ
add32 a b = (a + b) % 2 ^ 32

-- `s->cnt[i] += n`.
abbrev pub count : ℕ → ℕ → VelocitorState → VelocitorState
count i n s = record s { cnt = update s.cnt i (add32 (s.cnt i) n) }

-- An update of the fields of one queue.
abbrev pub set_vq : ℕ → VelocitorQueue → VelocitorState → VelocitorState
set_vq q v s = record s { queues = record (s.queues) { vq = update s.vq q v } }
