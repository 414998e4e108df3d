-- ===== src/Driver/Tests/Registers.antt =====
-- The theorems about the interrupts, the counters and the start of the card, at concrete states.
use linux_pci_driver.Common.{ℕ, ◌≡◌, ◌≢◌, ◌⊎◌, refl, arith, none, load, some}
use linux_pci_driver.Hw as Hw
use linux_pci_driver.Device.State.{VelocitorState}
use linux_pci_driver.Device.Irq.{raise}
use linux_pci_driver.Device.Firmware.{boot_done}
use linux_pci_driver.Device.Error.First.{Fault}
use linux_pci_driver.Device.Bus.{dma_run}
use linux_pci_driver.Device.Tests.{bus, running, host_bytes}
use linux_pci_driver.Driver.Handles.{Handles}
use linux_pci_driver.Driver.Counters.{counters_read}
use linux_pci_driver.Driver.Counters.Snapshot.{by_index, counters_read_lem}
use linux_pci_driver.Driver.Remoteproc.Power.{rproc_start}
use linux_pci_driver.Driver.Remoteproc.Power.Held.{Held, rproc_start-Held}
use linux_pci_driver.Driver.Dma.{dma_dbg_write}
use linux_pci_driver.Driver.Dma.Transfer.{dma_dbg_write_lem}
use linux_pci_driver.Driver.Tests.{shared_table, driver}

-- A device that raises an error, and so counts a message, before every access.
abbrev busy : ℕ → VelocitorState → VelocitorState
busy k s = raise Hw.irq_vec_error s

quiet_copies : (k : ℕ) (s : VelocitorState) → (busy k s).cnt_snap ≡ s.cnt_snap
unfolding raise
quiet_copies k s = refl

counters_read_example : (counters_read bus busy running).0 ≡ by_index (busy 0 running).cnt
counters_read_example = counters_read_lem bus busy running quiet_copies

abbrev fault : ℕ → Fault
fault code = record { code = code; info = 0x123456789; notifyid = 7; handle = 3 }

abbrev nothing_known : Handles
nothing_known = record { generation = 0; entries = λ h. none }

rproc_start_example :
    let r =
      rproc_start bus 4096 8192 220
        (some shared_table)
        (boot_done bus)
        (driver, nothing_known, running) in
    ((r.0 ≢ 0) × Held r.1.2) ⊎ ((r.0 ≡ 0) × (r.1.1.generation ≡ r.1.0.rproc_generation))
rproc_start_example =
    rproc_start-Held bus 4096 8192 220 (some shared_table) (boot_done bus)
      (driver, nothing_known, running)

dma_dbg_write_example :
    let r = dma_dbg_write bus (dma_run bus) 64 0 4 driver running in
    (r.0 ≡ (0, some 0)) × (load r.1.mem 64 4 ≡ load host_bytes 0x800000 4)
unfolding load
dma_dbg_write_example =
    dma_dbg_write_lem bus 64 0 4 (load host_bytes 0x800000 4) driver running (omega arith)
      (omega arith) (omega arith) refl refl
