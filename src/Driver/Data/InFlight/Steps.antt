-- ===== src/Driver/Data/InFlight/Steps.antt =====
-- The slots of module/src/data-transaction.c and the requests in all rings: copies, interrupts and
-- removals of the virtio device in any order.
use linux_pci_driver.Common.{
  ℕ, zero, suc, ◌+◌, ◌-◌, ◌^◌, ◌==◌, leb, ltb, if◌then◌else◌, Bool, true, false, not, ◌||◌, ◌&&◌,
  ◌≡◌, ◌⊎◌, inl, inr, refl, sym, ap, subst, ◌∙◌, arith, Option, some, List, [], update, update-same,
  update-other, choose, dchoose, Sum-cases, Option-cases, ℕ_discrete,
}
use linux_pci_driver.Hw.{engines, data_inflight, data_op_copy_h2d, data_op_copy_d2h}
use linux_pci_driver.Driver.Handles.{Handle}
use linux_pci_driver.Driver.Data.{
  Data, Posted, copy_bytes, transaction_reset, transaction_init, transaction_kick, copy_in,
  data_copy,
}
use linux_pci_driver.Driver.Data.Copy.{data_copy-failed}
use linux_pci_driver.Driver.Data.Completion.{
  take_buf, complete_all, detach_from, data_virtio_remove,
}
use linux_pci_driver.Driver.Data.InFlight.{
  holds, AllFrom, InFlight, Removed, remove_at-Removed, post-InFlight, reset-InFlight,
}

abbrev pub Sound : Data → Type 0
Sound d = (q : ℕ) → InFlight q (d.slots q) (d.posted q)

-- One queue changed.
patched :
    (d : Data) (q : ℕ) (row : ℕ → Bool) (l : List Posted)
    → InFlight q row l
    → Sound d
    → (p : ℕ) → InFlight p (update d.slots q row p) (update d.posted q l p)
patched d q row l new sound p = elim (ℕ_discrete p q) [
  | yes mine ↦
      subst (λ x. InFlight x (update d.slots q row x) (update d.posted q l x)) (sym mine)
        (subst (λ r. InFlight q r (update d.posted q l q)) (sym (update-same d.slots q row))
          (subst (InFlight q row) (sym (update-same d.posted q l)) new))
  | no other ↦
      subst (λ r. InFlight p r (update d.posted q l p)) (sym (update-other d.slots q row p other))
        (subst (InFlight p (d.slots p)) (sym (update-other d.posted q l p other)) (sound p))
]

pub take_buf-Removed :
    (place : List Posted → Option ℕ) (q : ℕ) (l : List Posted) (t : Posted) (r : List Posted)
    → take_buf place l ≡ some (t, r)
    → Removed q l t r
unfolding take_buf
take_buf-Removed place q l t r e = elim (Option-cases (place l)) [
  | inl nothing ↦ absurd (ground (arith, e, nothing))
  | inr (k, at) ↦ remove_at-Removed q k l t r (ground (arith, e, at))
]

pub round-Sound :
    (q : ℕ) (t : Posted) (r : List Posted) (d : Data)
    → Removed q (d.posted q) t r
    → Sound d
    → Sound (transaction_reset t.engine t.slot_idx (record d { posted = update d.posted q r }))
unfolding transaction_reset
round-Sound q t r d gone sound =
    let mine = (gone.of (sound q).from).0 in
    subst (λ e. Sound (transaction_reset e t.slot_idx (record d { posted = update d.posted q r })))
      (sym mine)
      (patched d q (update (d.slots q) t.slot_idx false) r
        (reset-InFlight q (d.slots q) (d.posted q) r t gone (sound q)) sound)

pub complete_all-Sound :
    (place : List Posted → Option ℕ) (fuel q : ℕ) (d : Data)
    → Sound d
    → Sound (complete_all place fuel q d).1
unfolding complete_all
complete_all-Sound place zero q d sound = elim (Option-cases (take_buf place (d.posted q))) [
  | inl empty ↦ rw (empty, complete_all) sound
  | inr (one, more) ↦ rw (more, complete_all) sound
]
complete_all-Sound place (suc fuel) q d sound = elim (Option-cases (take_buf place (d.posted q))) [
  | inl empty ↦ rw (empty, complete_all) sound
  | inr ((t, r), more) ↦
      rw (more, complete_all)
        (complete_all-Sound place fuel q _
          (round-Sound q t r d (take_buf-Removed place q (d.posted q) t r more) sound))
]

pub detach_from-Sound :
    (place : List Posted → Option ℕ) (left fuel q : ℕ) (d : Data)
    → Sound d
    → Sound (detach_from place left fuel q d).1
unfolding detach_from
detach_from-Sound place zero fuel q d sound = sound
detach_from-Sound place (suc left) fuel q d sound =
    detach_from-Sound place left fuel (q + 1) (complete_all place fuel q d).1
      (complete_all-Sound place fuel q d sound)

module _ (ida_alloc_max : (ℕ → Bool) → ℕ → ℕ ⊎ ℕ) where
  pub data Step : Data → Data → Type 0 where
    copies :
        (virtqueue_add_sgs : ℕ → List ℕ → ℕ) (engine op : ℕ) (block : Handle)
        (offset host_addr len : ℕ) (d : Data)
        → Step d
            (data_copy ida_alloc_max virtqueue_add_sgs engine op block offset host_addr len d).1
    -- An interrupt of a queue: what the device has used is handed back.
    completes :
        (virtqueue_get_buf : List Posted → Option ℕ) (fuel q : ℕ) (d : Data)
        → Step d (complete_all virtqueue_get_buf fuel q d).1
    removes :
        (virtqueue_detach_unused_buf : List Posted → Option ℕ) (fuel : ℕ) (d : Data)
        → Step d (data_virtio_remove virtqueue_detach_unused_buf fuel d).1

  pub data Run (start : Data) : Data → Type 0 where
    here : Run start start
    next : {d e : Data} → Run start d → Step d e → Run start e

  module _
      (picks : (used : ℕ → Bool) (max k : ℕ)
        → ida_alloc_max used max ≡ inr k
        → used k ≡ false) where
    posted-Sound :
        (virtqueue_add_sgs : ℕ → List ℕ → ℕ) (engine op : ℕ) (block : Handle)
        (offset host_addr len : ℕ) (d : Data)
        → Sound d
        → let r =
            data_copy ida_alloc_max virtqueue_add_sgs engine op block offset host_addr len d in
          r.0 ≡ 0 → Sound r.1
    unfolding data_copy copy_in transaction_init transaction_kick
    posted-Sound virtqueue_add_sgs engine op block offset host_addr len d sound =
        let P = λ (r : ℕ × Data). r.0 ≡ 0 → Sound r.1 in
        choose P
          (leb engines engine || (not (op == data_op_copy_h2d) && not (op == data_op_copy_d2h)))
          (λ _. sound)
          (choose P (leb (2 ^ 64) (offset + len) || ltb block.size (offset + len)) (λ _. sound)
            (elim (Sum-cases (ida_alloc_max (d.slots engine) (data_inflight - 1))) [
              | inl (err, none_free) ↦ rw (none_free, copy_in, transaction_init) (λ _. sound)
              | inr (slot, found) ↦
                  rw (found, copy_in, transaction_init)
                    (dchoose P
                      (not (
                        virtqueue_add_sgs engine
                          (copy_bytes d.seq block.generation op block.handle offset host_addr len)
                        == 0))
                      (λ full done. absurd (ground arith))
                      (λ fits done.
                        patched d engine (update (d.slots engine) slot true) _
                          (post-InFlight engine (d.slots engine) (d.posted engine)
                            (record {
                              slot_idx = slot;
                              engine = engine;
                              request =
                                  copy_bytes d.seq block.generation op block.handle offset host_addr
                                    len;
                            })
                            (picks _ _ slot found) refl (sound engine))
                          sound))
            ]))

    copied-Sound :
        (virtqueue_add_sgs : ℕ → List ℕ → ℕ) (engine op : ℕ) (block : Handle)
        (offset host_addr len : ℕ) (d : Data)
        → Sound d
        → Sound (data_copy ida_alloc_max virtqueue_add_sgs engine op block offset host_addr len d).1
    copied-Sound virtqueue_add_sgs engine op block offset host_addr len d sound =
        let r = data_copy ida_alloc_max virtqueue_add_sgs engine op block offset host_addr len d in
        elim (ℕ_discrete r.0 0) [
          | yes done ↦
              posted-Sound virtqueue_add_sgs engine op block offset host_addr len d sound done
          | no fails ↦ λ q.
              let kept = λ (i : ℕ).
                data_copy-failed ida_alloc_max virtqueue_add_sgs engine op block offset host_addr
                  len d q i picks fails in
              record {
                counted = λ i.
                    ap (holds i) (kept i).1
                    ∙ (sound q).counted i
                    ∙ ap (λ (b : Bool). if b then 1 else 0) (sym (kept i).0);
                from = subst (AllFrom q) (sym (kept 0).1) (sound q).from;
              }
        ]

    Step-Sound : {d e : Data} → Step d e → Sound d → Sound e
    unfolding data_virtio_remove
    Step-Sound (copies virtqueue_add_sgs engine op block offset host_addr len d) sound =
        copied-Sound virtqueue_add_sgs engine op block offset host_addr len d sound
    Step-Sound (completes virtqueue_get_buf fuel q d) sound =
        complete_all-Sound virtqueue_get_buf fuel q d sound
    Step-Sound (removes virtqueue_detach_unused_buf fuel d) sound =
        detach_from-Sound virtqueue_detach_unused_buf engines fuel 0 d sound

    pub Run-Sound : {d e : Data} → Sound d → Run d e → Sound e
    Run-Sound sound here = sound
    Run-Sound sound (next run step) = Step-Sound step (Run-Sound sound run)

abbrev pub Idle : Data → Type 0
Idle d = (q : ℕ) → ((i : ℕ) → d.slots q i ≡ false) × (d.posted q ≡ [])

pub Idle-Sound : (d : Data) → Idle d → Sound d
Idle-Sound d idle q = record {
  counted =
      λ i. ap (holds i) (idle q).1 ∙ ap (λ (b : Bool). if b then 1 else 0) (sym ((idle q).0 i));
  from = subst (AllFrom q) (sym (idle q).1) tt;
}

-- No slot leaks and none is used twice. From idle rings on, whatever copies are asked for, however the
-- virtio core takes or refuses their requests and in whatever order it hands the buffers back, on
-- interrupts and on removals of the device, each slot of each engine that is taken belongs to exactly
-- one transaction in the ring of that engine, each that is free to none, and each transaction in a
-- ring remembers that engine. The IDA picks a slot that is free.
pub slots_in_flight :
    (ida_alloc_max : (ℕ → Bool) → ℕ → ℕ ⊎ ℕ) (start d : Data) (q : ℕ)
    → ((used : ℕ → Bool) (max k : ℕ) → ida_alloc_max used max ≡ inr k → used k ≡ false)
    → Idle start
    → Run ida_alloc_max start d
    → ((i : ℕ) → holds i (d.posted q) ≡ (if d.slots q i then 1 else 0)) × AllFrom q (d.posted q)
slots_in_flight ida_alloc_max start d q picks idle run =
    let sound = Run-Sound ida_alloc_max picks (Idle-Sound start idle) run q in
    (sound.counted, sound.from)
