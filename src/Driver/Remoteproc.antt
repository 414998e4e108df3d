-- ===== src/Driver/Remoteproc.antt =====
-- module/src/remoteproc.c: `velocitor_rproc_walk_rsc_table`.
pub mod Walk
pub mod Power
use linux_pci_driver.Common.{
  ℕ, zero, suc, ◌+◌, ◌*◌, ◌%◌, leb, ltb, ◌==◌, if◌then◌else◌, Bool, true, false, not, ◌&&◌, load,
  le32, update, Option, none, some,
}
use linux_pci_driver.Hw.{einval, eio}
use linux_pci_driver.Device.Rsc.{
  rsc_type_vdev, rsc_off_entries, rsc_body, vdev_off_status, vdev_off_vring, vdev_vring_stride,
  vdev_vring_notifyid,
}
use linux_pci_driver.Driver.State.{VelocitorVring, vrings_count}

-- A field of 32 bits of the cached table, by its offset.
abbrev pub field : (ℕ → ℕ) → ℕ → ℕ
field table off = le32 (load table off 4) 0

-- Whether the walk goes on, `vring_index`, and the rings with the numbers assigned so far.
abbrev pub Walked : Type 0
Walked = Bool × ℕ × (ℕ → VelocitorVring)

unfoldable pub assign_notifyid : ℕ → ℕ → (ℕ → VelocitorVring) → ℕ → VelocitorVring
assign_notifyid index id vqs = update vqs index (record (vqs index) { notifyid = id })

module _ (table : ℕ → ℕ) where
  -- The inner loop, with `left` rings of the entry to go from ring `j` on.
  unfoldable pub walk_vrings : ℕ → ℕ → ℕ → ℕ → (ℕ → VelocitorVring) → Walked
  walk_vrings zero vdev j index vqs = (true, index, vqs)
  walk_vrings (suc left) vdev j index vqs =
      let id =
        field table (vdev + (vdev_off_vring + j * vdev_vring_stride + vdev_vring_notifyid)) in
      let rest = walk_vrings left vdev (j + 1) (index + 1) (assign_notifyid index id vqs) in
      if leb vrings_count index then (false, index, vqs) else rest

  -- `num_of_vrings` is a byte, one behind the status.
  unfoldable pub walk_entry : ℕ → ℕ → (ℕ → VelocitorVring) → Walked
  walk_entry i index vqs =
      let header = field table (rsc_off_entries + 4 * i) in
      if not (field table header == rsc_type_vdev)
      then (true, index, vqs)
      else walk_vrings (table (header + rsc_body + vdev_off_status + 1) % 256) (header + rsc_body) 0
          index vqs

  unfoldable pub walk_entries : ℕ → ℕ → ℕ → (ℕ → VelocitorVring) → Walked
  walk_entries zero i index vqs = (true, index, vqs)
  walk_entries (suc left) i index vqs =
      let entry = walk_entry i index vqs in
      let rest = walk_entries left (i + 1) entry.1 entry.2 in if entry.0 then rest else entry

  -- The walk of a table that is there: whether it gives 0, and the rings.
  unfoldable pub walk_rsc_table : (ℕ → VelocitorVring) → Bool × (ℕ → VelocitorVring)
  walk_rsc_table vqs =
      let walked = walk_entries (field table 4) 0 0 vqs in
      (walked.0 && (walked.1 == vrings_count), walked.2)

-- `velocitor_rproc_walk_rsc_table` with the table that is cached, if one is: its errno or 0, and the
-- rings.
unfoldable pub walk_cached_table : Option (ℕ → ℕ) → (ℕ → VelocitorVring) → ℕ × (ℕ → VelocitorVring)
walk_cached_table none vqs = (eio, vqs)
walk_cached_table (some table) vqs =
    let walked = walk_rsc_table table vqs in (if walked.0 then 0 else einval, walked.1)
