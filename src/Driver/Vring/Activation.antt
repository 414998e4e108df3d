-- ===== src/Driver/Vring/Activation.antt =====
-- What the device of qemu-device/velocitor.c has of the rings that module/src/vring.c activates.
use linux_pci_driver.Common.{
  ℕ, zero, suc, ◌+◌, ◌%◌, ◌^◌, ◌≤◌, ◌<◌, ◌≢◌, ◌≡◌, refl, sym, ap, subst, ◌∙◌, arith, ℕ_discrete,
}
use linux_pci_driver.Hw as Hw
use linux_pci_driver.Hw.Reg.{decode, VqRegister}
use linux_pci_driver.Device.State.{VelocitorState, VelocitorQueue, Env}
use linux_pci_driver.Device.Bar0.{access_ok, bar0_write, reg_write, vq_write}
use linux_pci_driver.Driver.State.{VelocitorDev, VelocitorVring, vrings_count}
use linux_pci_driver.Driver.Vring.{vring_activate_one, activate_from, vring_activate}
use linux_pci_driver.Driver.Vring.Describing.{Served, select-At, describe_ring-At, finish-Served}

-- A ring as `velocitor_vring_initialize` leaves it, in memory with 64-bit addresses.
pub record IsPlaced (avail_off used_off q : ℕ) (v : VelocitorVring) : Type 0 where
  pub index_is : v.index ≡ q
  pub vector_is : v.vector ≡ q + 1
  pub somewhere : 0 < v.dma
  pub avail_fits : v.dma + avail_off < 2 ^ 64
  pub used_fits : v.dma + used_off < 2 ^ 64

module _ (env : Env) (avail_off used_off : ℕ) where
  activate-Served :
      (v : VelocitorVring) (s : VelocitorState)
      → v.index < Hw.vq_count
      → v.vector < Hw.msix_vectors
      → 0 < v.dma
      → v.dma + avail_off < 2 ^ 64
      → v.dma + used_off < 2 ^ 64
      → (s.vq v.index).enable ≡ 0
      → let t = vring_activate_one env avail_off used_off v s in
        Served v.dma avail_off used_off v.vector (t.vq v.index)
        × ((p : ℕ) → p ≢ v.index → t.vq p ≡ s.vq p)
  unfolding vring_activate_one bar0_write reg_write decode access_ok
  activate-Served v s lt vec pos avail used off =
      finish-Served env v.index v.dma avail_off used_off v.vector (s.vq v.index) s _ vec pos avail
        used
        (describe_ring-At v.dma (v.dma + avail_off) (v.dma + used_off) v.vector v.index
          (s.vq v.index) s (vq_write env VqRegister.vq_select (v.index % 2 ^ 32) s)
          (select-At env v.index s lt off))

  abbrev Serves : VelocitorDev → VelocitorState → ℕ → Type 0
  Serves d s q = Served (d.vqs q).dma avail_off used_off (q + 1) (s.vq q)

  activate_round :
      (d : VelocitorDev) (s : VelocitorState) (i : ℕ)
      → i < vrings_count
      → IsPlaced avail_off used_off i (d.vqs i)
      → (s.vq i).enable ≡ 0
      → let t = vring_activate_one env avail_off used_off (d.vqs i) s in
        Serves d t i × ((p : ℕ) → p ≢ i → t.vq p ≡ s.vq p)
  activate_round d s i lt place off =
      let v = d.vqs i in
      let t = vring_activate_one env avail_off used_off v s in
      let at = place.index_is in
      let (served, rest) =
        activate-Served v s (omega (arith, at)) (omega (arith, place.vector_is)) place.somewhere
          place.avail_fits place.used_fits (ap (λ q. (s.vq q).enable) at ∙ off) in
      (
        subst (λ x. Served v.dma avail_off used_off x (t.vq i)) place.vector_is
            (subst (λ q. Served v.dma avail_off used_off v.vector (t.vq q)) at served),
        λ p other. rest p (λ e. other (e ∙ at)),
      )

  activate_from-Serves :
      (left i : ℕ) (d : VelocitorDev) (s : VelocitorState)
      → i + left ≡ vrings_count
      → ((q : ℕ) → q < vrings_count → IsPlaced avail_off used_off q (d.vqs q))
      → ((q : ℕ) → q < i → Serves d s q)
      → ((q : ℕ) → i ≤ q → q < vrings_count → (s.vq q).enable ≡ 0)
      → (q : ℕ) → q < vrings_count
      → Serves d (activate_from env avail_off used_off left i d s) q
  unfolding activate_from
  activate_from-Serves zero i d s all placed done off = λ q lt. done q (omega arith)
  activate_from-Serves (suc left) i d s all placed done off =
      let t = vring_activate_one env avail_off used_off (d.vqs i) s in
      let (served, rest) =
        activate_round d s i (omega arith) (placed i (omega arith))
          (off i (omega arith) (omega arith)) in
      let still = λ (q : ℕ) (other : q ≢ i). rest q other in
      activate_from-Serves left (i + 1) d t (omega arith) placed
        (λ q lt. elim (ℕ_discrete q i) [
          | yes same ↦ subst (Serves d t) (sym same) served
          | no other ↦
              subst (λ u. Served (d.vqs q).dma avail_off used_off (q + 1) u) (sym (rest q other))
                (done q (omega arith))
        ])
        (λ q le lt.
          ap (λ (u : VelocitorQueue). u.enable) (rest q (omega arith)) ∙ off q (omega arith) lt)

-- After `velocitor_vring_activate` all four queues of the device are enabled, with 256 entries, each
-- with its own interrupt vector and with the addresses of its ring's three parts, whatever the
-- driver's memory for the rings is, if the queues were disabled before and the addresses are not 0
-- and have 64 bits.
pub vring_activate-Served :
    (env : Env) (avail_off used_off : ℕ) (d : VelocitorDev) (s : VelocitorState) (q : ℕ)
    → ((p : ℕ) → p < vrings_count → IsPlaced avail_off used_off p (d.vqs p))
    → ((p : ℕ) → p < vrings_count → (s.vq p).enable ≡ 0)
    → q < vrings_count
    → Served
        (d.vqs q).dma
        avail_off
        used_off
        (q + 1)
        ((vring_activate env avail_off used_off d s).vq q)
unfolding vring_activate
vring_activate-Served env avail_off used_off d s q placed off lt =
    activate_from-Serves env avail_off used_off vrings_count 0 d s refl placed
      (λ p none_yet. absurd (omega arith)) (λ p _ below. off p below) q lt
