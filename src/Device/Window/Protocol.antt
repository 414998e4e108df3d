-- ===== src/Device/Window/Protocol.antt =====
-- The two steps in which a driver moves the window of qemu-device/velocitor.c: it writes WIN_BASE,
-- and reads it back.
use linux_pci_driver.Common.{
  ℕ, ◌-◌, ◌%◌, ◌^◌, ◌<◌, ltb, ◌==◌, if◌then◌else◌, Bool, not, ◌&&◌, ◌≡◌, refl, ◌∙◌, arith, dchoose,
  test_bit,
}
use linux_pci_driver.Hw.{window_size, mem_size, err_inject_win_ignore}
use linux_pci_driver.Hw.Reg.{decode}
use linux_pci_driver.Hw.Offsets.{reg_win_base}
use linux_pci_driver.Device.State.{VelocitorState, Env}
use linux_pci_driver.Device.Window.{window_promote, window_write_base}
use linux_pci_driver.Device.Bar0.{access_ok, bar0_read, bar0_write, reg_read, reg_write}

-- The bases that the device takes.
abbrev pub valid_base : ℕ → Bool
valid_base base = (base % window_size == 0) && not (ltb (mem_size - window_size) base)

promote_at :
    (s : VelocitorState)
    → ((window_promote s).win_base ≡ s.win_pending)
      × ((window_promote s).win_pending ≡ s.win_pending)
unfolding window_promote
promote_at s =
    dchoose (λ (t : VelocitorState). (t.win_base ≡ s.win_pending) × (t.win_pending ≡ s.win_pending))
      (s.win_pending == s.win_base) (λ same. (ground arith, refl)) (λ _. (refl, refl))

write_pending :
    (base : ℕ) (s : VelocitorState)
    → (window_write_base base s).win_pending ≡ (
        if test_bit s.err_inject err_inject_win_ignore
        then s.win_pending
        else if valid_base base
        then base
        else s.win_pending)
unfolding window_write_base
write_pending base s = ground arith

write_base : (base : ℕ) (s : VelocitorState) → (window_write_base base s).win_base ≡ s.win_base
unfolding window_write_base
write_base base s = ground arith

-- After a write of a 32-bit base to WIN_BASE and a read of it, the value read is the base at which
-- the window stands. It is the base written, if that is aligned to the window and the whole window
-- fits in device memory; it is the base asked for before, if the base written is not valid or if
-- the injected error that drops one write was armed. Until the read, the window stays where it was.
pub win_base_readback :
    (env : Env) (base : ℕ) (s : VelocitorState)
    → base < 2 ^ 32
    → let t = bar0_write env reg_win_base base 4 s in
      let r = bar0_read reg_win_base 4 t in
      (t.win_base ≡ s.win_base)
      × (r.0 ≡ r.1.win_base)
      × (r.0 ≡ (
          if test_bit s.err_inject err_inject_win_ignore
          then s.win_pending
          else if valid_base base
          then base
          else s.win_pending))
unfolding bar0_write bar0_read reg_read reg_write decode access_ok
win_base_readback env base s lt =
    let t = window_write_base (base % 2 ^ 32) s in
    let (at, _) = promote_at t in
    let same : base % 2 ^ 32 ≡ base = omega arith in
    (write_base (base % 2 ^ 32) s, refl, at ∙ write_pending _ s ∙ rw same refl)
