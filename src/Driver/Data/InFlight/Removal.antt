-- ===== src/Driver/Data/InFlight/Removal.antt =====
-- That the removal of the virtio device in module/src/data-virtio.c ends, with nothing left in use.
use linux_pci_driver.Common.{
  ℕ, zero, suc, ◌≤◌, ◌<◌, Bool, true, false, ◌≡◌, ◌≢◌, ◌⊎◌, inl, inr, refl, ap, ◌∙◌, arith, Option,
  none, some, List, [], ◌∷◌, length, update, update-same, update-other, Option-cases, ℕ_discrete,
}
use linux_pci_driver.Hw.{engines}
use linux_pci_driver.Driver.Data.{Data, Posted, transaction_reset}
use linux_pci_driver.Driver.Data.Completion.{
  remove_at, take_buf, complete_all, detach_from, data_virtio_remove,
}
use linux_pci_driver.Driver.Data.InFlight.{holds}
use linux_pci_driver.Driver.Data.InFlight.Steps.{
  Idle, Idle-Sound, Run, Run-Sound, take_buf-Removed, detach_from-Sound,
}

remove_at_some : (k : ℕ) (l : List Posted) → k < length l → remove_at k l ≢ none
unfolding remove_at
remove_at_some k [] lt e = absurd (omega arith)
remove_at_some zero (t ∷ l) lt e = absurd (cc e)
remove_at_some (suc k) (t ∷ l) lt e = elim (Option-cases (remove_at k l)) [
  | inl short ↦ remove_at_some k l (omega arith) short
  | inr (one, found) ↦ absurd (ground (arith, e, found))
]

-- What a queue is after its loop.
record Emptied (q : ℕ) (d : Data) (r : Bool × Data) : Type 0 where
  ended : r.0 ≡ true
  empty : r.1.posted q ≡ []
  others : (p : ℕ) → p ≢ q → r.1.posted p ≡ d.posted p

module _ (place : List Posted → Option ℕ) (gets_all : (l : List Posted) → place l ≡ none → l ≡ [])
    (inside : (l : List Posted) (k : ℕ) → place l ≡ some k → k < length l) where
  nothing_left : (l : List Posted) → take_buf place l ≡ none → l ≡ []
  unfolding take_buf
  nothing_left l e = elim (Option-cases (place l)) [
    | inl done ↦ gets_all l done
    | inr (k, at) ↦ absurd (remove_at_some k l (inside l k at) (ground (arith, e, at)))
  ]

  complete_all-Emptied :
      (fuel q : ℕ) (d : Data)
      → length (d.posted q) ≤ fuel
      → Emptied q d (complete_all place fuel q d)
  unfolding complete_all transaction_reset
  complete_all-Emptied zero q d enough = elim (Option-cases (take_buf place (d.posted q))) [
    | inl empty ↦
        rw (empty, complete_all)
          (record { ended = refl; empty = nothing_left (d.posted q) empty; others = λ p _. refl })
    | inr ((t, r), more) ↦
        let gone = take_buf-Removed place q (d.posted q) t r more in
        absurd (omega (arith, gone.fewer))
  ]
  complete_all-Emptied (suc fuel) q d enough = elim (Option-cases (take_buf place (d.posted q))) [
    | inl empty ↦
        rw (empty, complete_all)
          (record { ended = refl; empty = nothing_left (d.posted q) empty; others = λ p _. refl })
    | inr ((t, r), more) ↦
        let gone = take_buf-Removed place q (d.posted q) t r more in
        let d1 =
          transaction_reset t.engine t.slot_idx (record d { posted = update d.posted q r }) in
        let here : d1.posted q ≡ r = update-same d.posted q r in
        let ih = complete_all-Emptied fuel q d1 (omega (arith, gone.fewer, ap length here)) in
        rw (more, complete_all)
          (record {
            ended = ih.ended;
            empty = ih.empty;
            others = λ p other. ih.others p other ∙ update-other d.posted q r p other;
          })
  ]

  both-Emptied :
      (fuel : ℕ) (d : Data)
      → ((q : ℕ) → q < engines → length (d.posted q) ≤ fuel)
      → let r = data_virtio_remove place fuel d in
        (r.0 ≡ true) × ((q : ℕ) → q < engines → r.1.posted q ≡ [])
  unfolding data_virtio_remove detach_from
  both-Emptied fuel d enough =
      let first = complete_all-Emptied fuel 0 d (enough 0 (omega arith)) in
      let d1 = (complete_all place fuel 0 d).1 in
      let kept : length (d1.posted 1) ≡ length (d.posted 1) =
        ap length (first.others 1 (λ e. omega (arith, e))) in
      let second = complete_all-Emptied fuel 1 d1 (omega (arith, kept, enough 1 (omega arith))) in
      let d2 = (complete_all place fuel 1 d1).1 in
      (
        rw (first.ended, second.ended) refl,
        λ q lt. elim (ℕ_discrete q 1) [
          | yes one ↦ ap d2.posted one ∙ second.empty
          | no other ↦
              let none_before : q ≡ 0 = omega arith in
              second.others q other ∙ ap d1.posted none_before ∙ first.empty
        ],
      )

-- The removal of the virtio device ends and frees everything. After any run from idle rings, with as
-- much fuel as the longest ring has transactions, the loops of `velocitor_data_virtio_remove` end, the
-- ring of each engine is empty and every slot of it is free, if the virtio core hands every unused
-- buffer back before it says that there is none. The IDA picks a slot that is free.
pub data_virtio_remove-freed :
    (ida_alloc_max : (ℕ → Bool) → ℕ → ℕ ⊎ ℕ) (virtqueue_detach_unused_buf : List Posted → Option ℕ)
    (start d : Data) (fuel q : ℕ)
    → ((used : ℕ → Bool) (max k : ℕ) → ida_alloc_max used max ≡ inr k → used k ≡ false)
    → ((l : List Posted) → virtqueue_detach_unused_buf l ≡ none → l ≡ [])
    → ((l : List Posted) (k : ℕ) → virtqueue_detach_unused_buf l ≡ some k → k < length l)
    → Idle start
    → Run ida_alloc_max start d
    → ((p : ℕ) → p < engines → length (d.posted p) ≤ fuel)
    → q < engines
    → let r = data_virtio_remove virtqueue_detach_unused_buf fuel d in
      (r.0 ≡ true) × (r.1.posted q ≡ []) × ((i : ℕ) → r.1.slots q i ≡ false)
unfolding data_virtio_remove
data_virtio_remove-freed ida_alloc_max place start d fuel q picks gets_all inside idle run enough
      lt =
    let sound =
      detach_from-Sound place engines fuel 0 d
        (Run-Sound ida_alloc_max picks (Idle-Sound start idle) run) in
    let (ended, empty) = both-Emptied place gets_all inside fuel d enough in
    (ended, empty q lt, λ i. ground (arith, (sound q).counted i, ap (holds i) (empty q lt)))
