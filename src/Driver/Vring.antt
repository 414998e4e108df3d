-- ===== src/Driver/Vring.antt =====
-- module/src/vring.c: the four rings of the driver, described to the device and enabled. Where
-- `vring_init` puts the available and the used ring of a ring is a parameter, an offset for each.
pub mod Describing
pub mod Activation
use linux_pci_driver.Common.{ℕ, zero, suc, ◌+◌, ◌/◌, ◌%◌, ◌^◌, ltb, if◌then◌else◌}
use linux_pci_driver.Hw.{vring_num, notifyid_none}
use linux_pci_driver.Hw.Offsets.{
  reg_vq_select, reg_vq_desc_lo, reg_vq_desc_hi, reg_vq_avail_lo, reg_vq_avail_hi, reg_vq_used_lo,
  reg_vq_used_hi, reg_vq_num, reg_vq_msix_vector, reg_vq_enable,
}
use linux_pci_driver.Device.State.{VelocitorState, Env}
use linux_pci_driver.Driver.State.{VelocitorDev, VelocitorVring, vrings_count}
use linux_pci_driver.Driver.Io.{writel}

-- `lower_32_bits` and `upper_32_bits` of a DMA address.
abbrev pub lower_32_bits : ℕ → ℕ
lower_32_bits a = a % 2 ^ 32

abbrev pub upper_32_bits : ℕ → ℕ
upper_32_bits a = a / 2 ^ 32 % 2 ^ 32

-- `velocitor_vring_initialize_` of ring `idx`, with the memory it got.
abbrev pub vring_initialize_one : ℕ → ℕ → VelocitorVring
vring_initialize_one idx dma = record {
  index = idx;
  vector = idx + 1;
  notifyid = notifyid_none;
  dma = dma;
}

unfoldable pub vring_initialize : (ℕ → ℕ) → VelocitorDev → VelocitorDev
vring_initialize dma d = record d { vqs = λ i. vring_initialize_one i (dma i) }

-- The notifyids; the memory of the rings is the host's.
unfoldable pub vring_invalidate : VelocitorDev → VelocitorDev
vring_invalidate d = record d {
  vqs = λ i. if ltb i vrings_count then record (d.vqs i) { notifyid = notifyid_none } else d.vqs i;
}

module _ (env : Env) (avail_off used_off : ℕ) where
  unfoldable pub vring_activate_one : VelocitorVring → VelocitorState → VelocitorState
  vring_activate_one v s =
      let desc = v.dma in
      let avail = desc + avail_off in
      let used = desc + used_off in
      let s1 = writel env v.index reg_vq_select s in
      let s2 = writel env (lower_32_bits desc) reg_vq_desc_lo s1 in
      let s3 = writel env (upper_32_bits desc) reg_vq_desc_hi s2 in
      let s4 = writel env (lower_32_bits avail) reg_vq_avail_lo s3 in
      let s5 = writel env (upper_32_bits avail) reg_vq_avail_hi s4 in
      let s6 = writel env (lower_32_bits used) reg_vq_used_lo s5 in
      let s7 = writel env (upper_32_bits used) reg_vq_used_hi s6 in
      let s8 = writel env vring_num reg_vq_num s7 in
      let s9 = writel env v.vector reg_vq_msix_vector s8 in writel env 1 reg_vq_enable s9

  -- The loop over the rings, with `left` of them to go from ring `i` on.
  unfoldable pub activate_from : ℕ → ℕ → VelocitorDev → VelocitorState → VelocitorState
  activate_from zero i d s = s
  activate_from (suc left) i d s = activate_from left (i + 1) d (vring_activate_one (d.vqs i) s)

  unfoldable pub vring_activate : VelocitorDev → VelocitorState → VelocitorState
  vring_activate d s = activate_from vrings_count 0 d s
