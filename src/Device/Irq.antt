-- ===== src/Device/Irq.antt =====
-- `velocitor_raise` of qemu-device/velocitor.c: the MSI-X vectors and the latched causes.
pub mod Latch
use linux_pci_driver.Common.{ℕ, ◌^◌, if◌then◌else◌, bit_or, test_bit, List, ◌∷◌}
use linux_pci_driver.Hw.{irq_latched}
use linux_pci_driver.Hw.Reg.{cnt_notify_tx}
use linux_pci_driver.Device.State.{VelocitorState, Irq, Machine, count}

-- Only the vectors of VEL_IRQ_LATCHED leave a bit in IRQ_STATUS.
abbrev pub latch : ℕ → ℕ → ℕ
latch vector status = if test_bit irq_latched vector then bit_or status (2 ^ vector) else status

-- `msix_notify`, for the message that the mask lets through.
abbrev pub deliver : ℕ → ℕ → Machine → Machine
deliver vector mask m =
    if test_bit mask vector
    then m
    else if m.msix_enabled
    then record m { messages = vector ∷ m.messages }
    else m

unfoldable pub raise : ℕ → VelocitorState → VelocitorState
raise vector s = record (count cnt_notify_tx 1 s) {
  irq = record (s.irq) { irq_status = latch vector s.irq_status };
  machine = deliver vector s.irq_mask s.machine;
}
