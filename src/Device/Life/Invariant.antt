-- ===== src/Device/Life/Invariant.antt =====
-- What holds of the device of qemu-device/velocitor.c from its reset on, whatever the guest writes,
-- whatever the bus answers and whichever timer fires first.
use linux_pci_driver.Common.{ℕ, ◌%◌, ◌^◌, refl, inl, inr, arith, choose}
use linux_pci_driver.Hw.Reg.{decode}
use linux_pci_driver.Device.State.{VelocitorState, Env}
use linux_pci_driver.Device.Allocator.Sound.{alloc_reset-HeapOk}
use linux_pci_driver.Device.Bar0.{bar0_read, bar0_write, access_ok}
use linux_pci_driver.Device.Life.{
  device_reset, Step, Run, reads, writes, dma_fires, boot_fires, service_fires, resets, ticks,
  guest_writes, switches, here, next,
}
use linux_pci_driver.Device.Life.Keeps.{AllInReach, IsSound}
use linux_pci_driver.Device.Life.Timers.{service-Keeps, dma_run-Keeps, boot_done-Keeps}
use linux_pci_driver.Device.Life.Registers.{window_promote-Keeps, reg_write-Keeps, reg_read-state}

-- A read of any register, of any size, keeps the invariant.
pub bar0_read-IsSound :
    (addr size : ℕ) (s : VelocitorState) → IsSound s → IsSound (bar0_read addr size s).1
unfolding bar0_read
bar0_read-IsSound addr size s i =
    choose (λ (r : ℕ × VelocitorState). IsSound r.1) (access_ok addr size)
      (elim (reg_read-state (decode addr) s) [
        | inl e ↦ rw e i
        | inr e ↦ rw e ((window_promote-Keeps s).keep i)
      ])
      i

-- So does a write of any value.
pub bar0_write-IsSound :
    (env : Env) (addr val size : ℕ) (s : VelocitorState)
    → IsSound s
    → IsSound (bar0_write env addr val size s)
unfolding bar0_write
bar0_write-IsSound env addr val size s i =
    choose IsSound (access_ok addr size)
      ((reg_write-Keeps env (decode addr) (val % 2 ^ 32) s).keep i) i

-- What `velocitor_reset` leaves is sound, when no transfer out of reach was made before.
pub device_reset-IsSound : (s : VelocitorState) → AllInReach s.accesses → IsSound (device_reset s)
unfolding device_reset
device_reset-IsSound s done = record {
  base_at = (refl, omega arith);
  pending_at = (refl, omega arith);
  ready = λ q. inl refl;
  select_lt = omega arith;
  reach = done;
  heap = alloc_reset-HeapOk s.heap;
}

Step-IsSound : (env : Env) (s t : VelocitorState) → Step env s t → IsSound s → IsSound t
Step-IsSound env s t (reads addr size) i = bar0_read-IsSound addr size s i
Step-IsSound env s t (writes addr val size) i = bar0_write-IsSound env addr val size s i
Step-IsSound env s t (dma_fires n armed due) i = (dma_run-Keeps env _).keep i
Step-IsSound env s t (boot_fires n armed due) i = (boot_done-Keeps env _).keep i
Step-IsSound env s t (service_fires fuel n armed due) i = (service-Keeps env fuel _).keep i
Step-IsSound env s t resets i = device_reset-IsSound s i.reach
Step-IsSound env s t (ticks n) i = i
Step-IsSound env s t (guest_writes m) i = i
Step-IsSound env s t (switches b) i = i

pub Run-IsSound : (env : Env) (s t : VelocitorState) → Run env s t → IsSound s → IsSound t
Run-IsSound env s t here i = i
Run-IsSound env s t (next {t = u} r step) i = Step-IsSound env u t step (Run-IsSound env s u r i)
