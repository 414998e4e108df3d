-- ===== src/Device/Life.antt =====
-- The device as a whole: `velocitor_reset` of qemu-device/velocitor.c, and what can happen to it: an
-- access to BAR0, a timer that runs out, time that passes, the guest's switch for MSI-X.
pub mod Keeps
pub mod Timers
pub mod Registers
pub mod Invariant
pub mod Config
pub mod Reached
use linux_pci_driver.Common.{
  ℕ, ◌+◌, ◌≤◌, ltb, if◌then◌else◌, Bool, true, false, ◌≡◌, Option, none, some, List, [],
}
use linux_pci_driver.Hw as Hw
use linux_pci_driver.Device.State.{
  VelocitorState, VelocitorQueue, Window, Irq, Firmware, Dma, Rsc, Queues, Err, Heap, Inject,
  Machine, Env,
}
use linux_pci_driver.Device.Window.{mem_fill_pattern}
use linux_pci_driver.Device.Bus.{dma_run}
use linux_pci_driver.Device.Allocator.{alloc_reset}
use linux_pci_driver.Device.Firmware.{boot_done}
use linux_pci_driver.Device.Sweep.{vq_service}
use linux_pci_driver.Device.Bar0.{bar0_read, bar0_write}

-- `memset(s->vq, 0, ...)`, then no notifyid.
abbrev pub no_queue : VelocitorQueue
no_queue = record {
  num = 0;
  enable = 0;
  desc_lo = 0;
  desc_hi = 0;
  avail_lo = 0;
  avail_hi = 0;
  used_lo = 0;
  used_hi = 0;
  msix_vector = 0;
  notifyid = Hw.notifyid_none;
  vdev_off = 0;
  gfeatures = 0;
  vstatus = 0;
  last_avail = 0;
}

-- `msix_reset` turns the capability off; the machine around the device goes on.
unfoldable pub device_reset : VelocitorState → VelocitorState
device_reset s = record {
  scratch = 0;
  mem = mem_fill_pattern s.mem;
  cnt = λ i. 0;
  cnt_snap = λ i. 0;
  win = record { win_base = 0; win_pending = 0 };
  irq = record { irq_status = 0; irq_mask = 0 };
  fw = record {
    reset = 1;
    fw_status = Hw.fw_status_reset;
    fw_abi = 0;
    generation = 0;
    trace_da = 0;
    trace_len = 0;
    trace_epoch = 0;
    boot_timer = none;
  };
  dma = record {
    dma_timer = none;
    dma_addr_lo = 0;
    dma_addr_hi = 0;
    dma_dev = 0;
    dma_len = 0;
    dma_ctl = 0;
    dma_status = Hw.dma_status_idle;
  };
  rsc = record { rsc_addr_lo = 0; rsc_addr_hi = 0; rsc_len = 0; rsc_valid = 0 };
  queues = record {
    vq_select = 0;
    vq = λ q. no_queue;
    rpmsg_announced = false;
    vq_sweep = 0;
    vq_timer = none;
  };
  err = record {
    err_code = Hw.err_none;
    err_info_lo = 0;
    err_info_hi = 0;
    err_notifyid = Hw.notifyid_none;
    err_handle = 0;
    err_generation = 0;
    err_dropped = 0;
  };
  heap = alloc_reset s.heap;
  inject = record { err_inject = 0; err_inject_arg = 0 };
  machine = record (s.machine) { msix_enabled = false };
}

-- One event. A timer fires when the clock has reached it, and is disarmed before its callback runs.
pub data Step (env : Env) (s : VelocitorState) : VelocitorState → Type 0 where
  reads : (addr size : ℕ) → Step env s (bar0_read addr size s).1
  writes : (addr val size : ℕ) → Step env s (bar0_write env addr val size s)
  dma_fires :
      (t : ℕ)
      → s.dma_timer ≡ some t
      → t ≤ s.clock
      → Step env s (dma_run env (record s { dma = record (s.dma) { dma_timer = none } }))
  boot_fires :
      (t : ℕ)
      → s.boot_timer ≡ some t
      → t ≤ s.clock
      → Step env s (boot_done env (record s { fw = record (s.fw) { boot_timer = none } }))
  service_fires :
      (fuel t : ℕ)
      → s.vq_timer ≡ some t
      → t ≤ s.clock
      → Step env s
          (vq_service env fuel (record s { queues = record (s.queues) { vq_timer = none } }))
  resets : Step env s (device_reset s)
  ticks : (n : ℕ) → Step env s (record s { machine = record (s.machine) { clock = s.clock + n } })
  guest_writes : (m : ℕ → ℕ) → Step env s (record s { mem = m })
  switches :
      (b : Bool) → Step env s (record s { machine = record (s.machine) { msix_enabled = b } })

-- Any number of events.
pub data Run (env : Env) (s : VelocitorState) : VelocitorState → Type 0 where
  here : Run env s s
  next : {t u : VelocitorState} → Run env s t → Step env t u → Run env s u
