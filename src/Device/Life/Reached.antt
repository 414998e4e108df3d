-- ===== src/Device/Life/Reached.antt =====
-- What a driver can rely on in every state that the device of qemu-device/velocitor.c can reach from
-- its reset.
use linux_pci_driver.Device.State.{VelocitorState, Env}
use linux_pci_driver.Device.Life.{device_reset, Run}
use linux_pci_driver.Device.Life.Keeps.{AllInReach, IsSound}
use linux_pci_driver.Device.Life.Invariant.{device_reset-IsSound, Run-IsSound}

-- Every event keeps the invariant, and reset establishes it: in every state that any sequence of
-- register accesses, timers, resets and changes of device memory reaches from a reset, the window and
-- its pending base are aligned and within device memory, every enabled queue is completely described,
-- the selected queue exists, every DMA transfer made starts at or below 2^42 or wraps 64 bits, and the
-- allocator is well-formed. The condition is that the transfers before the reset did so, too.
pub Run-device_reset :
    (env : Env) (s t : VelocitorState)
    → AllInReach s.accesses
    → Run env (device_reset s) t
    → IsSound t
Run-device_reset env s t done r = Run-IsSound env (device_reset s) t r (device_reset-IsSound s done)
