-- ===== src/Device/Sweep/Routing.antt =====
-- Which queue a doorbell of qemu-device/velocitor.c wakes.
use linux_pci_driver.Common.{
  ℕ, zero, suc, ◌+◌, ◌≤◌, ◌<◌, ◌==◌, if◌then◌else◌, not, ◌≡◌, ◌≢◌, refl, sym, subst, ap, ℕ_discrete,
  dec_lt, arith, dchoose,
}
use linux_pci_driver.Hw.{vq_count}
use linux_pci_driver.Hw.Reg.{cnt_db_rx}
use linux_pci_driver.Device.State.{VelocitorState, count}
use linux_pci_driver.Device.Sweep.{vq_arm, ring_from, doorbell}

-- The first queue from `first` on with this notifyid is `q`.
abbrev pub FirstNamed : ℕ → ℕ → ℕ → VelocitorState → Type 0
FirstNamed first q notifyid s =
    ((s.vq q).notifyid ≡ notifyid) × ((p : ℕ) → first ≤ p → p < q → (s.vq p).notifyid ≢ notifyid)

ring_next :
    (s : VelocitorState) (first q notifyid : ℕ)
    → first ≤ q
    → (s.vq q).notifyid ≡ notifyid
    → (s.vq first).notifyid ≢ notifyid
    → first + 1 ≤ q
ring_next s first q notifyid le here ne = elim (ℕ_discrete first q) [
  | yes e ↦ absurd (ne (subst (λ (i : ℕ). (s.vq i).notifyid ≡ notifyid) (sym e) here))
  | no other ↦ omega arith
]

not_before :
    (s : VelocitorState) (first q notifyid : ℕ)
    → first ≤ q
    → ((p : ℕ) → first ≤ p → p < q → (s.vq p).notifyid ≢ notifyid)
    → (s.vq first).notifyid ≡ notifyid
    → first ≡ q
not_before s first q notifyid le before here = elim (dec_lt first q) [
  | yes lt ↦ absurd (before first (omega arith) lt here)
  | no ge ↦ omega arith
]

ring_first :
    (k first q notifyid : ℕ) (s : VelocitorState)
    → first ≤ q
    → q < first + k
    → FirstNamed first q notifyid s
    → ring_from k first notifyid s ≡ (if (s.vq q).enable == 0 then s else vq_arm q s)
unfolding ring_from
ring_first zero first q notifyid s le lt named = absurd (omega arith)
ring_first (suc k) first q notifyid s le lt (here, before) =
    let goal = if (s.vq q).enable == 0 then s else vq_arm q s in
    let other = λ (ne : (s.vq first).notifyid ≢ notifyid).
      ring_first k (first + 1) q notifyid s (ring_next s first q notifyid le here ne) (omega arith)
        (here, λ p le' lt'. before p (omega arith) lt') in
    dchoose (λ (t : VelocitorState). t ≡ goal) (not ((s.vq first).notifyid == notifyid))
      (λ no. other (ground arith))
      (λ named.
        ap (λ (p : ℕ). if (s.vq p).enable == 0 then s else vq_arm p s)
          (not_before s first q notifyid le before (ground arith)))

ring_none :
    (k first notifyid : ℕ) (s : VelocitorState)
    → ((p : ℕ) → first ≤ p → p < first + k → (s.vq p).notifyid ≢ notifyid)
    → ring_from k first notifyid s ≡ s
unfolding ring_from
ring_none zero first notifyid s none_named = refl
ring_none (suc k) first notifyid s none_named =
    dchoose (λ (t : VelocitorState). t ≡ s) (not ((s.vq first).notifyid == notifyid))
      (λ _.
        ring_none k (first + 1) notifyid s (λ p le lt. none_named p (omega arith) (omega arith)))
      (λ e. absurd (none_named first (omega arith) (omega arith) (ground arith)))

-- When one of the four queues has the notifyid of a doorbell, the doorbell counts and wakes the
-- first such queue, if that queue is enabled; it wakes no other.
pub doorbell_first :
    (q notifyid : ℕ) (s : VelocitorState)
    → q < vq_count
    → FirstNamed 0 q notifyid s
    → doorbell notifyid s
      ≡ (if (s.vq q).enable == 0 then count cnt_db_rx 1 s else vq_arm q (count cnt_db_rx 1 s))
unfolding doorbell
doorbell_first q notifyid s lt named =
    ring_first vq_count 0 q notifyid (count cnt_db_rx 1 s) (omega arith) (omega arith) named

-- A doorbell with a notifyid that none of the four queues has only counts.
pub doorbell_none :
    (notifyid : ℕ) (s : VelocitorState)
    → ((p : ℕ) → p < vq_count → (s.vq p).notifyid ≢ notifyid)
    → doorbell notifyid s ≡ count cnt_db_rx 1 s
unfolding doorbell
doorbell_none notifyid s none_named =
    ring_none vq_count 0 notifyid (count cnt_db_rx 1 s) (λ p le lt. none_named p lt)
