-- ===== src/Mkfw/Rings.antt =====
-- The resource table of firmware/mkfw.c, as the remoteproc core hands it to module/src/remoteproc.c.
use linux_pci_driver.Common.{ℕ, ◌+◌, ◌*◌, ◌/◌, ◌%◌, ◌^◌, ◌<◌, true, ◌≡◌, refl, arith, load, store}
use linux_pci_driver.Mkfw.{
  Image, build, put32, rsc_off, put_header, put_table, put_names, put_sections, put_elf,
  put_segment, emit_heap, emit_vdev, emit_vring,
}
use linux_pci_driver.Driver.State.{VelocitorVring}
use linux_pci_driver.Driver.Remoteproc.{
  walk_rsc_table, walk_entries, walk_entry, walk_vrings, assign_notifyid,
}

-- The section of the image with the notifyids that the core writes into its four vring descriptors.
abbrev pub notified : (ℕ → ℕ) → Image
notified ids =
    put32 212 (ids 3)
      (put32 192 (ids 2) (put32 144 (ids 1) (put32 124 (ids 0) (λ i. build.1 (rsc_off + i)))))

le32_word :
    (w : ℕ)
    → w < 2 ^ 32
    → w % 256 % 256
        + 256 * (w / 256 % 256 % 256)
        + 65536 * (w / 65536 % 256 % 256)
        + 16777216 * (w / 16777216 % 256 % 256)
      ≡ w
le32_word w lt = omega arith

-- The walk of the driver takes the table of the generator: it succeeds, and the four rings get the
-- notifyids that the core wrote into the vring descriptors, the control rings first.
pub build-walk_rsc_table :
    (ids : ℕ → ℕ) (vqs : ℕ → VelocitorVring)
    → ((q : ℕ) → q < 4 → ids q < 2 ^ 32)
    → let walked = walk_rsc_table (notified ids) vqs in
      (walked.0 ≡ true)
      × ((walked.1 0).notifyid ≡ ids 0)
      × ((walked.1 1).notifyid ≡ ids 1)
      × ((walked.1 2).notifyid ≡ ids 2)
      × ((walked.1 3).notifyid ≡ ids 3)
unfolding walk_rsc_table walk_entries walk_entry walk_vrings assign_notifyid build put_header
    put_table put_names put_sections put_elf put_segment emit_heap emit_vdev emit_vring load store
build-walk_rsc_table ids vqs small = (
  refl,
  le32_word (ids 0) (small 0 (omega arith)),
  le32_word (ids 1) (small 1 (omega arith)),
  le32_word (ids 2) (small 2 (omega arith)),
  le32_word (ids 3) (small 3 (omega arith)),
)
