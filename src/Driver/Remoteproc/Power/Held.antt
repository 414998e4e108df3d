-- ===== src/Driver/Remoteproc/Power/Held.antt =====
-- How the device of qemu-device/velocitor.c stands when module/src/remoteproc.c could not start it.
use linux_pci_driver.Common.{
  ℕ, ◌+◌, ◌<◌, ltb, ◌==◌, if◌then◌else◌, not, ◌||◌, Option, none, ◌≡◌, ◌≢◌, ◌⊎◌, inl, inr, refl,
  choose, dchoose, arith,
}
use linux_pci_driver.Hw as Hw
use linux_pci_driver.Hw.Reg.{decode}
use linux_pci_driver.Device.State.{VelocitorState, Env}
use linux_pci_driver.Device.Moves.{trace_any}
use linux_pci_driver.Device.Bar0.{bar0_read, bar0_write, reg_read, reg_write, access_ok}
use linux_pci_driver.Device.Firmware.{reset_write, reset_assert, vq_purge}
use linux_pci_driver.Device.Rsc.{rsc_publish}
use linux_pci_driver.Driver.Dtrace.{bar2_readl}
use linux_pci_driver.Driver.Handles.{Handles, handles_regenerate}
use linux_pci_driver.Driver.Vring.{vring_invalidate}
use linux_pci_driver.Driver.Remoteproc.{walk_cached_table}
use linux_pci_driver.Driver.Remoteproc.Power.{
  Card, rproc_stop, give_up, publish, take_rings, take_over, rproc_start,
}

-- A device held in reset: nothing runs, nothing is going to, and no ring or table of the host is in
-- use.
pub record Held (s : VelocitorState) : Type 0 where
  pub reset : s.reset ≡ 1
  pub status : s.fw_status ≡ Hw.fw_status_reset
  pub no_boot : s.boot_timer ≡ none
  pub no_service : s.vq_timer ≡ none
  pub no_table : s.rsc_valid ≡ 0
  pub no_ring : (q : ℕ) → q < Hw.vq_count → (s.vq q).enable ≡ 0

purged_ring : (q : ℕ) (s : VelocitorState) → q < Hw.vq_count → ((vq_purge s).vq q).enable ≡ 0
unfolding vq_purge
purged_ring q s lt = ground arith

assert-Held :
    (env : Env) (s : VelocitorState)
    → s.reset ≡ 1
    → Held
        (record (reset_assert env s) { rsc = record ((reset_assert env s).rsc) { rsc_valid = 0 } })
unfolding reset_assert vq_purge
assert-Held env s asserted =
    trace_any env
      (λ (u : VelocitorState).
        let s2 = vq_purge (record u { fw = record (u.fw) { boot_timer = none } }) in
        Held (record s2 {
          rsc = record (s2.rsc) { rsc_valid = 0 };
          fw = record (s2.fw) {
            fw_status = Hw.fw_status_reset;
            fw_abi = 0;
            trace_da = 0;
            trace_len = 0;
          };
        }))
      _ _ _ _ s
      (λ mem. record {
        reset = asserted;
        status = refl;
        no_boot = refl;
        no_service = refl;
        no_table = refl;
        no_ring = λ q lt. purged_ring q s lt;
      })

stop-Held : (env : Env) (s : VelocitorState) → Held (rproc_stop env s)
unfolding rproc_stop bar0_write reg_write access_ok decode reset_write rsc_publish
stop-Held env s = assert-Held env (record s { fw = record (s.fw) { reset = 1 } }) refl

module _ (env : Env) where
  -- A failure leaves the device held, and success is of the generation that was read.
  abbrev Fair : ℕ × Card → Type 0
  Fair r = ((r.0 ≢ 0) × Held r.1.2) ⊎ ((r.0 ≡ 0) × (r.1.1.generation ≡ r.1.0.rproc_generation))

  given_up : (err : ℕ) (c : Card) → err ≢ 0 → Fair (give_up env err c)
  unfolding give_up
  given_up err (d, t, s) failed = inl (failed, stop-Held env s)

  regenerated :
      (generation : ℕ) (t : Handles) → (handles_regenerate generation t).generation ≡ generation
  unfolding handles_regenerate
  regenerated generation t = ground arith

  module _ (avail_off used_off : ℕ) where
    rings-Fair :
        (table : Option (ℕ → ℕ)) (c : Card)
        → c.1.generation ≡ c.0.rproc_generation
        → Fair (take_rings env avail_off used_off table c)
    unfolding take_rings
    rings-Fair table (d, t, s) same =
        let walked = walk_cached_table table d.vqs in
        dchoose Fair (not (walked.0 == 0))
          (λ failed.
            given_up walked.0 (record d { vqs = walked.1 }, t, s) (λ e. absurd (ground arith)))
          (λ _. inr (refl, same))

    over-Fair :
        (table : Option (ℕ → ℕ)) (c : Card) → Fair (take_over env avail_off used_off table c)
    unfolding take_over bar0_read reg_read access_ok decode
    over-Fair table (d, t, s) =
        let over = record d {
          rproc_generation = s.generation;
          dtrace_da = bar2_readl (Hw.fw_hdr_da + Hw.fw_hdr_off_trace_da) s;
        } in
        let renewed = handles_regenerate s.generation t in
        choose Fair
          (not (Hw.fw_abi == s.fw_abi)
            || not (
                Hw.trace_entry
                == bar2_readl
                    (bar2_readl (Hw.fw_hdr_da + Hw.fw_hdr_off_trace_da) s + Hw.trace_off_entry_size)
                    s))
          (given_up Hw.enodev (over, renewed, s) (λ e. omega (arith, e)))
          (rings-Fair table (over, renewed, s) (regenerated s.generation t))

-- A start that fails leaves the device held. Whatever the device does while the driver polls, and
-- whether or not a resource table is cached, when
-- `velocitor_rproc_start` returns an error RESET is asserted, no firmware runs or is about to boot, no
-- service is armed, no shadow table is valid and no ring is enabled; and when it returns 0, the handle
-- table is of the generation that the driver read.
pub rproc_start-Held :
    (env : Env) (avail_off used_off table_sz : ℕ) (table : Option (ℕ → ℕ))
    (poll : VelocitorState → VelocitorState) (c : Card)
    → let r = rproc_start env avail_off used_off table_sz table poll c in
      ((r.0 ≢ 0) × Held r.1.2) ⊎ ((r.0 ≡ 0) × (r.1.1.generation ≡ r.1.0.rproc_generation))
unfolding rproc_start bar0_read reg_read access_ok decode
rproc_start-Held env avail_off used_off table_sz table poll (d, t, s) =
    let u = poll (publish env d.rsc_dma table_sz s) in
    let d1 = vring_invalidate d in
    choose (Fair env) (ltb u.fw_status Hw.fw_status_running)
      (given_up env (if Hw.err_fw_header == u.err_code then Hw.enodev else Hw.etimedout) (d1, t, u)
        (λ e. absurd (ground (arith, e))))
      (choose (Fair env) (not (Hw.fw_status_running == u.fw_status))
        (given_up env Hw.eio (d1, t, u) (λ e. omega (arith, e)))
        (over-Fair env avail_off used_off table (d1, t, u)))
