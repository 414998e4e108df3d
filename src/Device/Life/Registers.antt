-- ===== src/Device/Life/Registers.antt =====
-- The invariant of the device of qemu-device/velocitor.c, kept by every register write.
use linux_pci_driver.Common.{
  ℕ, zero, suc, ◌+◌, ◌-◌, ◌%◌, ltb, leb, ◌==◌, not, ◌&&◌, ◌||◌, ◌≡◌, refl, ◌⊎◌, inl, inr, arith,
  choose, dchoose, test_bit,
}
use linux_pci_driver.Hw.{window_size, mem_size, nodes, node_any, vq_count, irq_vec_error, dma_bits}
use linux_pci_driver.Hw as Hw
use linux_pci_driver.Hw.Reg.{cnt_db_rx, Register, VqRegister}
use linux_pci_driver.Device.State.{VelocitorState, VelocitorQueue, Env, count}
use linux_pci_driver.Device.Window.{window_promote, window_write_base}
use linux_pci_driver.Device.Bus.{dma_start}
use linux_pci_driver.Device.Sweep.{incomplete, vq_enable, vq_arm, doorbell, ring_from}
use linux_pci_driver.Device.Bar0.{
  reg_read, reg_write, vq_write, vq_describe, set_field, inject_write, snap_counters,
  clear_counters,
}
use linux_pci_driver.Device.Frame.Publish.{rsc_publish-R}
use linux_pci_driver.Device.Life.Keeps.{
  Keeps, kept, and_then, set_vq-Keeps, with_win-Keeps, trace-Keeps, Keeps-IsFrame, Keeps-Publishes,
}
use linux_pci_driver.Device.Life.Timers.{reset_write-Keeps, fw_crash-Keeps}

set_field-off :
    (r : VqRegister) (val : ℕ) (v : VelocitorQueue) → v.enable ≡ 0 → (set_field r val v).enable ≡ 0
unfolding set_field
set_field-off VqRegister.vq_num val v e = e
set_field-off VqRegister.vq_select val v e = e
set_field-off VqRegister.vq_num_max val v e = e
set_field-off VqRegister.vq_enable val v e = e
set_field-off VqRegister.vq_desc_lo val v e = e
set_field-off VqRegister.vq_desc_hi val v e = e
set_field-off VqRegister.vq_avail_lo val v e = e
set_field-off VqRegister.vq_avail_hi val v e = e
set_field-off VqRegister.vq_used_lo val v e = e
set_field-off VqRegister.vq_used_hi val v e = e
set_field-off VqRegister.vq_msix_vector val v e = e
set_field-off VqRegister.vq_reserved val v e = e

vq_arm-Keeps : (q : ℕ) (s : VelocitorState) → Keeps s (vq_arm q s)
unfolding vq_arm
vq_arm-Keeps q s = kept s _ (λ i. i)

ring_from-Keeps : (k q notifyid : ℕ) (s : VelocitorState) → Keeps s (ring_from k q notifyid s)
unfolding ring_from
ring_from-Keeps zero q notifyid s = kept s s (λ i. i)
ring_from-Keeps (suc k) q notifyid s =
    choose (Keeps s) (not ((s.vq q).notifyid == notifyid)) (ring_from-Keeps k (q + 1) notifyid s)
      (choose (Keeps s) ((s.vq q).enable == 0) (kept s s (λ i. i)) (vq_arm-Keeps q s))

pub window_promote-Keeps : (s : VelocitorState) → Keeps s (window_promote s)
unfolding window_promote
window_promote-Keeps s = choose (Keeps s) (s.win_pending == s.win_base) (kept s s (λ i. i)) (
    and_then s _ _ (with_win-Keeps (record (s.win) { win_base = s.win_pending }) s (λ p b. (p, p)))
      (kept _ _ (λ i. i)))

window_write_base-Keeps : (base : ℕ) (s : VelocitorState) → Keeps s (window_write_base base s)
unfolding window_write_base
window_write_base-Keeps base s =
    choose (Keeps s) (test_bit s.err_inject Hw.err_inject_win_ignore) (kept s _ (λ i. i)) (
      dchoose (Keeps s) (not (base % window_size == 0) || ltb (mem_size - window_size) base)
        (λ _. kept s _ (λ i. i))
        (λ fits. with_win-Keeps _ s (λ p b. (b, (ground arith, ground arith)))))

-- A running queue cannot be described anew.
vq_describe-Keeps : (r : VqRegister) (val : ℕ) (s : VelocitorState) → Keeps s (vq_describe r val s)
unfolding vq_describe
vq_describe-Keeps r val s =
    let q = s.vq_select in
    dchoose (Keeps s) (not ((s.vq q).enable == 0)) (λ _. kept s s (λ i. i))
      (λ off. set_vq-Keeps q _ s (λ _. inl (set_field-off r val (s.vq q) (ground arith))))

dma_start-Keeps : (val : ℕ) (s : VelocitorState) → Keeps s (dma_start val s)
unfolding dma_start
dma_start-Keeps val s =
    choose (Keeps s) (not (val == Hw.dbg_dma_h2d) && not (val == Hw.dbg_dma_d2h))
      (kept s s (λ i. i)) (kept s _ (λ i. i))

module _ (env : Env) where
  -- A queue runs only when its description is complete.
  vq_enable-Keeps : (q val : ℕ) (s : VelocitorState) → Keeps s (vq_enable env q val s)
  unfolding vq_enable
  vq_enable-Keeps q val s =
      let v = s.vq q in
      choose (Keeps s) (val % 2 == 0) (set_vq-Keeps q _ s (λ _. inl refl)) (
        choose (Keeps s) (not (v.enable == 0)) (kept s s (λ i. i)) (
          dchoose (Keeps s) (incomplete v) (λ _. kept s s (λ i. i))
            λ whole.
              and_then s _ _ (set_vq-Keeps q (record v { enable = 1 }) s (λ _. inr whole))
                (and_then _ _ _ (trace-Keeps env _ _ _ _ _) (vq_arm-Keeps q _))))

  select-Keeps : (val : ℕ) (s : VelocitorState) → Keeps s (vq_write env VqRegister.vq_select val s)
  unfolding vq_write
  select-Keeps val s =
      dchoose (Keeps s) (leb vq_count val) (λ _. kept s s (λ i. i))
        λ lt. record {
          keep = λ i. record {
            base_at = i.base_at;
            pending_at = i.pending_at;
            ready = i.ready;
            select_lt = ground arith;
            reach = i.reach;
            heap = i.heap;
          };
        }

  vq_write-Keeps : (r : VqRegister) (val : ℕ) (s : VelocitorState) → Keeps s (vq_write env r val s)
  unfolding vq_write
  vq_write-Keeps VqRegister.vq_select val s = select-Keeps val s
  vq_write-Keeps VqRegister.vq_num_max val s = kept s s (λ i. i)
  vq_write-Keeps VqRegister.vq_enable val s = vq_enable-Keeps s.vq_select val s
  vq_write-Keeps VqRegister.vq_num val s = vq_describe-Keeps VqRegister.vq_num val s
  vq_write-Keeps VqRegister.vq_desc_lo val s = vq_describe-Keeps VqRegister.vq_desc_lo val s
  vq_write-Keeps VqRegister.vq_desc_hi val s = vq_describe-Keeps VqRegister.vq_desc_hi val s
  vq_write-Keeps VqRegister.vq_avail_lo val s = vq_describe-Keeps VqRegister.vq_avail_lo val s
  vq_write-Keeps VqRegister.vq_avail_hi val s = vq_describe-Keeps VqRegister.vq_avail_hi val s
  vq_write-Keeps VqRegister.vq_used_lo val s = vq_describe-Keeps VqRegister.vq_used_lo val s
  vq_write-Keeps VqRegister.vq_used_hi val s = vq_describe-Keeps VqRegister.vq_used_hi val s
  vq_write-Keeps VqRegister.vq_msix_vector val s = vq_describe-Keeps VqRegister.vq_msix_vector val s
  vq_write-Keeps VqRegister.vq_reserved val s = vq_describe-Keeps VqRegister.vq_reserved val s

  inject_write-Keeps : (val : ℕ) (s : VelocitorState) → Keeps s (inject_write env val s)
  unfolding inject_write
  inject_write-Keeps val s =
      let s1 = record s { inject = record (s.inject) { err_inject = val } } in
      and_then s s1 _ (kept s s1 (λ i. i)) (
        choose (Keeps s1) (test_bit val Hw.err_inject_fw_crash) (fw_crash-Keeps env s1)
          (kept s1 s1 (λ i. i)))

  pub reg_write-Keeps :
      (r : Register) (val : ℕ) (s : VelocitorState) → Keeps s (reg_write env r val s)
  unfolding reg_write snap_counters clear_counters doorbell
  reg_write-Keeps (Register.window r) val s = vq_write-Keeps r val s
  reg_write-Keeps (Register.counter k) val s = kept s s (λ i. i)
  reg_write-Keeps Register.cnt_snap val s =
      choose (Keeps s) (val % 2 == 0) (kept s s (λ i. i)) (kept s _ (λ i. i))
  reg_write-Keeps Register.cnt_reset val s =
      choose (Keeps s) (val % 2 == 0) (kept s s (λ i. i)) (kept s _ (λ i. i))
  reg_write-Keeps Register.reset val s = reset_write-Keeps env val s
  reg_write-Keeps Register.win_base val s = window_write_base-Keeps val s
  reg_write-Keeps Register.dbg_dma_ctl val s = dma_start-Keeps val s
  reg_write-Keeps Register.rsc_valid val s =
      rsc_publish-R (Keeps-IsFrame env) (Keeps-Publishes env) val s
  reg_write-Keeps Register.doorbell val s =
      and_then s (count cnt_db_rx 1 s) _ (kept s _ (λ i. i)) (ring_from-Keeps vq_count 0 val _)
  reg_write-Keeps Register.err_inject val s = inject_write-Keeps val s
  reg_write-Keeps Register.magic val s = kept s _ (λ i. i)
  reg_write-Keeps Register.version val s = kept s _ (λ i. i)
  reg_write-Keeps Register.caps val s = kept s _ (λ i. i)
  reg_write-Keeps Register.mem_size val s = kept s _ (λ i. i)
  reg_write-Keeps Register.topology val s = kept s _ (λ i. i)
  reg_write-Keeps Register.dma_bits val s = kept s _ (λ i. i)
  reg_write-Keeps Register.fw_status val s = kept s _ (λ i. i)
  reg_write-Keeps Register.fw_abi val s = kept s _ (λ i. i)
  reg_write-Keeps Register.generation val s = kept s _ (λ i. i)
  reg_write-Keeps Register.err_code val s = kept s _ (λ i. i)
  reg_write-Keeps Register.err_info_lo val s = kept s _ (λ i. i)
  reg_write-Keeps Register.err_info_hi val s = kept s _ (λ i. i)
  reg_write-Keeps Register.err_notifyid val s = kept s _ (λ i. i)
  reg_write-Keeps Register.err_handle val s = kept s _ (λ i. i)
  reg_write-Keeps Register.err_generation val s = kept s _ (λ i. i)
  reg_write-Keeps Register.err_dropped val s = kept s _ (λ i. i)
  reg_write-Keeps Register.dbg_dma_status val s = kept s _ (λ i. i)
  reg_write-Keeps Register.reserved val s = kept s _ (λ i. i)
  reg_write-Keeps Register.irq_status val s = kept s _ (λ i. i)
  reg_write-Keeps Register.scratch val s = kept s _ (λ i. i)
  reg_write-Keeps Register.dbg_dma_addr_lo val s = kept s _ (λ i. i)
  reg_write-Keeps Register.dbg_dma_addr_hi val s = kept s _ (λ i. i)
  reg_write-Keeps Register.dbg_dma_dev val s = kept s _ (λ i. i)
  reg_write-Keeps Register.dbg_dma_len val s = kept s _ (λ i. i)
  reg_write-Keeps Register.rsc_addr_lo val s = kept s _ (λ i. i)
  reg_write-Keeps Register.rsc_addr_hi val s = kept s _ (λ i. i)
  reg_write-Keeps Register.rsc_len val s = kept s _ (λ i. i)
  reg_write-Keeps Register.irq_mask val s = kept s _ (λ i. i)
  reg_write-Keeps Register.irq_ack val s = kept s _ (λ i. i)
  reg_write-Keeps Register.err_inject_arg val s = kept s _ (λ i. i)

-- A read changes nothing, save that one of WIN_BASE moves the window.
pub reg_read-state :
    (r : Register) (s : VelocitorState)
    → ((reg_read r s).1 ≡ s) ⊎ ((reg_read r s).1 ≡ window_promote s)
unfolding reg_read
reg_read-state Register.win_base s = inr refl
reg_read-state (Register.counter k) s = inl refl
reg_read-state (Register.window r) s = inl refl
reg_read-state Register.magic s = inl refl
reg_read-state Register.version s = inl refl
reg_read-state Register.caps s = inl refl
reg_read-state Register.scratch s = inl refl
reg_read-state Register.mem_size s = inl refl
reg_read-state Register.topology s = inl refl
reg_read-state Register.dma_bits s = inl refl
reg_read-state Register.reset s = inl refl
reg_read-state Register.fw_status s = inl refl
reg_read-state Register.irq_status s = inl refl
reg_read-state Register.irq_mask s = inl refl
reg_read-state Register.irq_ack s = inl refl
reg_read-state Register.doorbell s = inl refl
reg_read-state Register.fw_abi s = inl refl
reg_read-state Register.generation s = inl refl
reg_read-state Register.err_inject s = inl refl
reg_read-state Register.err_inject_arg s = inl refl
reg_read-state Register.err_code s = inl refl
reg_read-state Register.err_info_lo s = inl refl
reg_read-state Register.err_info_hi s = inl refl
reg_read-state Register.err_notifyid s = inl refl
reg_read-state Register.err_handle s = inl refl
reg_read-state Register.err_generation s = inl refl
reg_read-state Register.err_dropped s = inl refl
reg_read-state Register.dbg_dma_addr_lo s = inl refl
reg_read-state Register.dbg_dma_addr_hi s = inl refl
reg_read-state Register.dbg_dma_dev s = inl refl
reg_read-state Register.dbg_dma_len s = inl refl
reg_read-state Register.dbg_dma_ctl s = inl refl
reg_read-state Register.dbg_dma_status s = inl refl
reg_read-state Register.cnt_reset s = inl refl
reg_read-state Register.cnt_snap s = inl refl
reg_read-state Register.rsc_addr_lo s = inl refl
reg_read-state Register.rsc_addr_hi s = inl refl
reg_read-state Register.rsc_len s = inl refl
reg_read-state Register.rsc_valid s = inl refl
reg_read-state Register.reserved s = inl refl
