-- ===== src/Device/Frame/Publish.antt =====
-- The publication of the shadow resource table of qemu-device/velocitor.c, `velocitor_rsc_publish`
-- with its walk, for every relation that respects the moves of a queue.
use linux_pci_driver.Common.{ℕ, zero, suc, ◌+◌, ◌%◌, ltb, ◌==◌, not, ◌||◌, Option, choose}
use linux_pci_driver.Hw.{irq_vec_error}
use linux_pci_driver.Device.State.{VelocitorState, Env, set_vq}
use linux_pci_driver.Device.Rsc.{
  rsc_hdr_size, rsc_in_table, rsc_probe32, scan_vrings, scan_entry, scan_entries, forget_notifyids,
  rsc_scan_vdevs, rsc_accept, rsc_check, rsc_publish,
}
use linux_pci_driver.Device.Frame.{
  IsFrame, Holds, error_set-R, bind-Holds, pure-Holds, modify-Holds, on_failure-Holds,
  when_else-Holds, rsc_read32-Holds,
}

-- A relation that respects what the walk writes.
pub record Publishes (env : Env) (R : VelocitorState → VelocitorState → Type 0) : Type 0 where
  pub learn_R :
      (q id off : ℕ) (s : VelocitorState)
      → R s (set_vq q (record (s.vq q) { notifyid = id; vdev_off = off }) s)
  pub forget_R : (s : VelocitorState) → R s (forget_notifyids env s)
  pub valid_R :
      (n : ℕ) (s : VelocitorState) → R s (record s { rsc = record (s.rsc) { rsc_valid = n } })

module _ {env : Env} {R : VelocitorState → VelocitorState → Type 0} (F : IsFrame env R)
    (P : Publishes env R) where
  open F use {refl_R, trans_R, raise_R}
  open P use {learn_R, forget_R, valid_R}

  rsc_probe32-Holds : (off : ℕ) → Holds R (rsc_probe32 env off)
  unfolding rsc_probe32
  rsc_probe32-Holds off = record {
    apply = λ s.
        choose (λ (r : Option ℕ × VelocitorState). R s r.1) (rsc_in_table off s)
          ((rsc_read32-Holds F off).apply s) (refl_R s);
  }

  scan_vrings-Holds : (left body j q : ℕ) → Holds R (scan_vrings env left body j q)
  unfolding scan_vrings
  scan_vrings-Holds zero body j q = pure-Holds F _
  scan_vrings-Holds (suc left) body j q =
      when_else-Holds F _ _ _
        (bind-Holds F (on_failure-Holds F (rsc_probe32-Holds _) (λ t. learn_R q _ _ t)) λ id.
          bind-Holds F (modify-Holds F (learn_R q id body))
            λ _. scan_vrings-Holds left body (j + 1) (q + 1))
        (pure-Holds F _)

  scan_entry-Holds : (i q : ℕ) → Holds R (scan_entry env i q)
  unfolding scan_entry
  scan_entry-Holds i q = bind-Holds F (rsc_probe32-Holds _) λ entry.
      bind-Holds F (rsc_probe32-Holds _) λ type.
        when_else-Holds F _ _ _
          (bind-Holds F (rsc_probe32-Holds _) (λ packed. scan_vrings-Holds _ _ 0 q))
          (pure-Holds F _)

  scan_entries-Holds : (left i q : ℕ) → Holds R (scan_entries env left i q)
  unfolding scan_entries
  scan_entries-Holds zero i q = pure-Holds F _
  scan_entries-Holds (suc left) i q =
      when_else-Holds F _ _ _
        (bind-Holds F (scan_entry-Holds i q) (λ q'. scan_entries-Holds left (i + 1) q'))
        (pure-Holds F _)

  rsc_accept-R : (ver num : ℕ) (s : VelocitorState) → R s (rsc_accept env ver num s)
  unfolding rsc_accept rsc_scan_vdevs
  rsc_accept-R ver num s =
      choose (λ (t : VelocitorState). R s t) (not (ver == 1) || (num == 0))
        (trans_R _ _ _ (error_set-R F _ _ s) (raise_R irq_vec_error _))
        (trans_R _ _ _ (valid_R 1 s)
          (trans_R _ _ _ (forget_R _) ((scan_entries-Holds num 0 0).apply _)))

  rsc_check-Holds : Holds R (rsc_check env)
  unfolding rsc_check
  rsc_check-Holds = bind-Holds F (on_failure-Holds F (rsc_read32-Holds F _) (raise_R _)) λ ver.
      bind-Holds F (on_failure-Holds F (rsc_read32-Holds F _) (raise_R _))
        λ num. modify-Holds F (rsc_accept-R ver num)

  pub rsc_publish-R : (val : ℕ) (s : VelocitorState) → R s (rsc_publish env val s)
  unfolding rsc_publish
  rsc_publish-R val s =
      choose (λ (t : VelocitorState). R s t) (val % 2 == 0) (valid_R 0 s)
        (choose (λ (t : VelocitorState). R s t) (ltb s.rsc_len rsc_hdr_size)
          (trans_R _ _ _ (error_set-R F _ _ s) (raise_R irq_vec_error _)) (rsc_check-Holds.apply s))
