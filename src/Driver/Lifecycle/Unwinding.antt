-- ===== src/Driver/Lifecycle/Unwinding.antt =====
-- The checks on BAR0 against the device of qemu-device/velocitor.c, and what a load of the module of
-- module/src/lifecycle.c that fails leaves behind.
use linux_pci_driver.Common.{
  nonzero, ℕ, zero, suc, ◌≡◌, ◌==◌, if◌then◌else◌, List, [], ◌∷◌, refl, not,
}
use linux_pci_driver.Device.State.{VelocitorState, Env}
use linux_pci_driver.Hw.Reg.{decode}
use linux_pci_driver.Device.Bar0.{bar0_read, bar0_write}
use linux_pci_driver.Driver.Lifecycle.{
  initialize_bar0, check_scratch, Results, nothing, everything, init, exit,
}

-- Whatever state the device is in, a mapped BAR0 passes the checks of the probe, which leave their
-- last value in SCRATCH and nothing else changed; a BAR0 that is not mapped is not touched, and the
-- mapping's errno is given.
initialize_bar0_lem :
    (env : Env) (map : ℕ) (s : VelocitorState)
    → initialize_bar0 env map s ≡ (map, if map == 0 then record s { scratch = 0x12345678 } else s)
unfolding initialize_bar0 check_scratch bar0_read bar0_write decode
initialize_bar0_lem env zero s = refl
initialize_bar0_lem env (suc map) s = rw (nonzero map) refl

abbrev first_error : List ℕ → ℕ
first_error [] = 0
first_error (e ∷ es) = if not (e == 0) then e else first_error es

by_errno :
    (a b c d : ℕ)
    → let err = first_error (a ∷ b ∷ c ∷ d ∷ []) in
      init
        (record {
          class_create = a;
          rpmsg_initialize = b;
          virtio_initialize = c;
          register_driver = d;
        })
        nothing
      ≡ (err, if err == 0 then everything else nothing)
unfolding init
by_errno (suc a) b c d = rw (nonzero a) (rw (nonzero a) refl)
by_errno zero (suc b) c d = rw (nonzero b) (rw (nonzero b) refl)
by_errno zero zero (suc c) d = rw (nonzero c) (rw (nonzero c) refl)
by_errno zero zero zero (suc d) = rw (nonzero d) (rw (nonzero d) refl)
by_errno zero zero zero zero = refl

-- A load of the module gives the errno of the first call that failed and then holds nothing; if none
-- failed it gives 0 and holds everything, and unloading gives all of it back.
pub init-exit :
    (r : Results)
    → let err =
        first_error
          (r.class_create ∷ r.rpmsg_initialize ∷ r.virtio_initialize ∷ r.register_driver ∷ []) in
      (init r nothing ≡ (err, if err == 0 then everything else nothing))
      × (exit everything ≡ nothing)
unfolding exit
init-exit r =
    (by_errno r.class_create r.rpmsg_initialize r.virtio_initialize r.register_driver, refl)
