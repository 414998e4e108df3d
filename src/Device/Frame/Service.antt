-- ===== src/Device/Frame/Service.antt =====
-- A whole service of the queues of qemu-device/velocitor.c, `velocitor_vq_service` with all that it
-- calls, for every relation that respects the moves of the two planes.
use linux_pci_driver.Common.{ℕ, zero, suc, ◌+◌, ◌==◌, test_bit, arith, choose}
use linux_pci_driver.Hw.{vq_count}
use linux_pci_driver.Hw.Reg.{cnt_desc}
use linux_pci_driver.Device.State.{VelocitorState, Env}
use linux_pci_driver.Device.Sweep.{
  count_heads, sweep_others, sweep_pending, sweep_enabled, vq_sweep, service_from, vq_service,
}
use linux_pci_driver.Device.Frame.{
  IsFrame, Holds, bind-Holds, pure-Holds, stop-Holds, get-Holds, modify-Holds, when_else-Holds,
  host_read-Holds, refresh_negotiation-R,
}
use linux_pci_driver.Device.Frame.Planes.{
  CopiesIn, ServesControl, engine_drain-Holds, rpmsg_announce-Holds, rpmsg_drain-Holds,
}

-- A relation that respects forgetting which queues wait.
abbrev pub ClearsSweep : (VelocitorState → VelocitorState → Type 0) → Type 0
ClearsSweep R =
    (s : VelocitorState) → R s (record s { queues = record (s.queues) { vq_sweep = 0 } })

module _ {env : Env} {R : VelocitorState → VelocitorState → Type 0} (F : IsFrame env R)
    (copy_R : CopiesIn R) (C : ServesControl env R) where
  open F use {refl_R, trans_R, count_R, trace_R, ring_R}

  count_heads-Holds : (n i q : ℕ) → Holds R (count_heads env n i q)
  unfolding count_heads
  count_heads-Holds zero i q = pure-Holds F _
  count_heads-Holds (suc n) i q = bind-Holds F (get-Holds F) λ s.
      bind-Holds F (host_read-Holds F _ _ _)
        λ _. bind-Holds F (modify-Holds F (count_R cnt_desc 1)) (λ _. count_heads-Holds n (i + 1) q)

  sweep_others-Holds : (q pending : ℕ) → Holds R (sweep_others env q pending)
  unfolding sweep_others
  sweep_others-Holds q pending = bind-Holds F (get-Holds F) λ s.
      bind-Holds F (count_heads-Holds _ 0 q) λ _.
        bind-Holds F (modify-Holds F (λ t. ring_R q _ t (omega arith)))
          λ _. bind-Holds F (get-Holds F) (λ t. modify-Holds F (trace_R _ _ _ _))

  sweep_pending-Holds : (fuel q pending : ℕ) → Holds R (sweep_pending env fuel q pending)
  unfolding sweep_pending
  sweep_pending-Holds fuel q pending = when_else-Holds F _ _ _ (stop-Holds F) (
      when_else-Holds F _ _ _
        (bind-Holds F (get-Holds F)
          λ s. when_else-Holds F _ _ _ (rpmsg_announce-Holds F C) (stop-Holds F))
        (when_else-Holds F _ _ _ (engine_drain-Holds F copy_R fuel q)
          (sweep_others-Holds q pending)))

  sweep_enabled-Holds : (fuel q : ℕ) → Holds R (sweep_enabled env fuel q)
  unfolding sweep_enabled
  sweep_enabled-Holds fuel q = when_else-Holds F _ _ _ (rpmsg_drain-Holds F C fuel) (
      bind-Holds F (get-Holds F) λ s.
        bind-Holds F (host_read-Holds F _ _ _)
          λ raw. bind-Holds F (get-Holds F) (λ t. sweep_pending-Holds fuel q _))

  pub vq_sweep-R : (fuel q : ℕ) (s : VelocitorState) → R s (vq_sweep env fuel q s)
  unfolding vq_sweep
  vq_sweep-R fuel q s =
      choose (λ (t : VelocitorState). R s t) ((s.vq q).enable == 0) (refl_R s)
        (trans_R _ _ _ (refresh_negotiation-R F q s) ((sweep_enabled-Holds fuel q).apply _))

  service_from-R :
      (fuel k q pending : ℕ) (s : VelocitorState) → R s (service_from env fuel k q pending s)
  unfolding service_from
  service_from-R fuel zero q pending s = refl_R s
  service_from-R fuel (suc k) q pending s =
      trans_R _ _ _
        (choose (λ (t : VelocitorState). R s t) (test_bit pending q) (vq_sweep-R fuel q s)
          (refl_R s))
        (service_from-R fuel k (q + 1) pending _)

  pub vq_service-R : ClearsSweep R → (fuel : ℕ) (s : VelocitorState) → R s (vq_service env fuel s)
  unfolding vq_service
  vq_service-R clear_R fuel s =
      trans_R _ _ _ (clear_R s) (service_from-R fuel vq_count 0 s.vq_sweep _)
