-- ===== src/Mkfw/Tests.antt =====
-- The image of firmware/mkfw.c, by evaluation.
pub mod Witnesses
use linux_pci_driver.Common.{ℕ, ◌+◌, ◌≡◌, refl, load, store, List, [], ◌∷◌}
use linux_pci_driver.Mkfw.{
  build, put_header, put_table, put_names, put_sections, put_elf, put_segment, emit_heap, emit_vdev,
  emit_vring,
}

-- The image takes 512 of the 8192 bytes of its buffer.
build_length : build.0 ≡ 512
unfolding build put_header put_table put_names put_sections put_elf put_segment emit_heap emit_vdev
    emit_vring
build_length = refl

-- The heap entry bears the name "heap".
heap_name : load build.1 196 5 ≡ 0x68 ∷ 0x65 ∷ 0x61 ∷ 0x70 ∷ 0 ∷ []
unfolding build put_header put_table put_names put_sections put_elf put_segment emit_heap emit_vdev
    emit_vring load store
heap_name = refl
