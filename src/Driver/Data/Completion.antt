-- ===== src/Driver/Data/Completion.antt =====
-- The end of a request of the data plane: the callback of module/src/data-virtio.c and the removal of
-- its device. `velocitor_data_complete` does nothing, and what it would be given is left out. Which
-- buffer the virtio core hands back is a parameter: its place in the ring, or none.
use linux_pci_driver.Common.{
  ℕ, zero, suc, ◌+◌, Bool, true, false, ◌&&◌, Option, none, some, List, [], ◌∷◌, update,
}
use linux_pci_driver.Hw.{engines}
use linux_pci_driver.Driver.Data.{Data, Posted, transaction_reset}

-- An item taken out of a list.
unfoldable pub remove_at : ℕ → List Posted → Option (Posted × List Posted)
remove_at k [] = none
remove_at zero (t ∷ l) = some (t, l)
remove_at (suc k) (t ∷ l) = elim (remove_at k l) [ none ↦ none | some (u, r) ↦ some (u, t ∷ r) ]

-- `virtqueue_get_buf` and `virtqueue_detach_unused_buf`, by the place that they choose.
unfoldable pub take_buf : (List Posted → Option ℕ) → List Posted → Option (Posted × List Posted)
unfolding remove_at
take_buf place l = elim (place l) [ none ↦ none | some k ↦ remove_at k l ]

module _ (place : List Posted → Option ℕ) where
  -- The loop that both handlers run on one queue, with `fuel` rounds at most, and whether it ended.
  unfoldable pub complete_all : ℕ → ℕ → Data → Bool × Data
  unfolding take_buf transaction_reset
  complete_all zero q d = elim (take_buf place (d.posted q)) [
    | none ↦ (true, d)
    | some _ ↦ (false, d)
  ]
  complete_all (suc fuel) q d = elim (take_buf place (d.posted q)) [
    | none ↦ (true, d)
    | some (t, rest) ↦
        complete_all fuel q
          (transaction_reset t.engine t.slot_idx (record d { posted = update d.posted q rest }))
  ]

  -- `velocitor_data_virtio_remove`: the queues from `q` on.
  unfoldable pub detach_from : ℕ → ℕ → ℕ → Data → Bool × Data
  unfolding complete_all
  detach_from zero fuel q d = (true, d)
  detach_from (suc left) fuel q d =
      let (ended, d1) = complete_all fuel q d in
      let (all, d2) = detach_from left fuel (q + 1) d1 in (ended && all, d2)

  unfoldable pub data_virtio_remove : ℕ → Data → Bool × Data
  unfolding detach_from
  data_virtio_remove fuel d = detach_from engines fuel 0 d
