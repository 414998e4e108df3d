-- ===== src/Mkfw.antt =====
-- The image that firmware/mkfw.c writes: `put16`, `put32`, `emit_vring`, `emit_vdev`, `emit_heap`
-- and the parts of `main`. An image is its bytes by file offset, zero before the first write.

pub mod Loading
pub mod Rings
pub mod Tests
use linux_pci_driver.Common.{
  ℕ, ◌+◌, ◌-◌, ◌*◌, ◌/◌, ◌^◌, ◌==◌, if◌then◌else◌, Bool, not, Option, none, some, List, [], ◌∷◌,
  store, to_le16, to_le32, replicate,
}
use linux_pci_driver.Hw as Hw

abbrev pub Image : Type 0
Image = ℕ → ℕ

abbrev pub ehdr_size : ℕ
ehdr_size = 52

abbrev pub phdr_size : ℕ
phdr_size = 32

abbrev pub shdr_size : ℕ
shdr_size = 40

abbrev pub rsc_carveout : ℕ
rsc_carveout = 0

abbrev pub rsc_vdev : ℕ
rsc_vdev = 3

abbrev pub fw_rsc_addr_any : ℕ
fw_rsc_addr_any = 0xFFFFFFFF

abbrev pub virtio_id_rpmsg : ℕ
virtio_id_rpmsg = 7

abbrev pub virtio_rpmsg_f_ns : ℕ
virtio_rpmsg_f_ns = 0

abbrev pub fw_trace_da : ℕ
fw_trace_da = 0x10000

abbrev pub payload_off : ℕ
payload_off = 128

abbrev pub put16 : ℕ → ℕ → Image → Image
put16 off v img = store img off (to_le16 v)

abbrev pub put32 : ℕ → ℕ → Image → Image
put32 off v img = store img off (to_le32 v)

-- Words put one behind the other, the first at `off`.
abbrev pub put_words : ℕ → List ℕ → Image → Image
put_words off [] img = img
put_words off (v ∷ vs) img = put_words (off + 4) vs (put32 off v img)

-- The address, the alignment, the size, and the two words that the host fills in.
unfoldable pub emit_vring : ℕ → Image → ℕ × Image
emit_vring off img =
    (off + 20, put_words off (fw_rsc_addr_any ∷ Hw.vring_align ∷ Hw.vring_num ∷ 0 ∷ 0 ∷ []) img)

unfoldable pub emit_vdev : ℕ → ℕ → ℕ → Image → ℕ × Image
unfolding emit_vring
emit_vdev off id dfeatures img =
    let head = put_words off (rsc_vdev ∷ id ∷ 0 ∷ dfeatures ∷ 0 ∷ 0 ∷ []) img in
    let (next, first) = emit_vring (off + 28) (store head (off + 24) (0 ∷ 2 ∷ 0 ∷ 0 ∷ [])) in
    emit_vring next first

-- The name is "heap", in 32 bytes.
unfoldable pub emit_heap : ℕ → Image → ℕ × Image
emit_heap off img =
    let fields =
      rsc_carveout ∷ Hw.aperture_size ∷ 0 ∷ (Hw.mem_size - Hw.aperture_size) ∷ 0 ∷ 0 ∷ [] in
    let named = store (put_words off fields img) (off + 24) (replicate 32 0) in
    (off + 24 + 32, store named (off + 24) (0x68 ∷ 0x65 ∷ 0x61 ∷ 0x70 ∷ []))

-- The firmware header at the head of the payload.
unfoldable pub put_header : Image → Image
put_header img = put32 (payload_off + Hw.fw_hdr_off_trace_len) Hw.trace_size (
    put32 (payload_off + Hw.fw_hdr_off_trace_da) fw_trace_da (
      put32 (payload_off + Hw.fw_hdr_off_abi) Hw.fw_abi
        (put32 (payload_off + Hw.fw_hdr_off_magic) Hw.fw_magic img)))

abbrev pub rsc_off : ℕ
rsc_off = payload_off + Hw.fw_hdr_size

abbrev pub rsc_da : ℕ
rsc_da = Hw.fw_hdr_da + Hw.fw_hdr_size

-- The resource table, with where it ends: three entries, then the header with their offsets.
unfoldable pub put_table : Image → ℕ × Image
unfolding emit_heap emit_vdev
put_table img =
    let e1 = rsc_off + 16 + 3 * 4 in
    let (e2, heap) = emit_heap e1 img in
    let (e3, rpmsg) = emit_vdev e2 virtio_id_rpmsg (2 ^ virtio_rpmsg_f_ns) heap in
    let (rsc_end, engines) = emit_vdev e3 Hw.virtio_id 0 rpmsg in
    (
      rsc_end,
      put_words rsc_off (1 ∷ 3 ∷ 0 ∷ 0 ∷ (e1 - rsc_off) ∷ (e2 - rsc_off) ∷ (e3 - rsc_off) ∷ [])
          engines,
    )

-- ".shstrtab" and ".resource_table" behind an empty name.
abbrev pub shstrtab_len : ℕ
shstrtab_len = 27

unfoldable pub put_names : ℕ → Image → Image
put_names off img =
    store
      (store (store img off (0 ∷ [])) (off + 1)
        (0x2e ∷ 0x73 ∷ 0x68 ∷ 0x73 ∷ 0x74 ∷ 0x72 ∷ 0x74 ∷ 0x61 ∷ 0x62 ∷ 0 ∷ []))
      (off + 11)
      (0x2e ∷ 0x72 ∷ 0x65 ∷ 0x73 ∷ 0x6f ∷ 0x75 ∷ 0x72 ∷ 0x63 ∷ 0x65 ∷ 0x5f ∷ 0x74 ∷ 0x61 ∷ 0x62
        ∷ 0x6c ∷ 0x65 ∷ 0 ∷ [])

-- `(off + len + 3) & ~3`.
abbrev pub section_offset : ℕ → ℕ
section_offset off = (off + shstrtab_len + 3) / 4 * 4

unfoldable pub put_sections : ℕ → ℕ → ℕ → Image → Image
put_sections shoff rsc_end names img =
    put_words (shoff + 2 * shdr_size) (1 ∷ 3 ∷ 0 ∷ 0 ∷ names ∷ shstrtab_len ∷ 0 ∷ 0 ∷ 1 ∷ 0 ∷ []) (
      put_words (shoff + shdr_size)
        (11 ∷ 1 ∷ 2 ∷ rsc_da ∷ rsc_off ∷ (rsc_end - rsc_off) ∷ 0 ∷ 0 ∷ 4 ∷ 0 ∷ [])
        (store img shoff (replicate 40 0)))

-- The ELF header: the identification, the type, the machine and the version, the two tables.
unfoldable pub put_elf : ℕ → Image → Image
put_elf shoff img =
    let ident = store img 0 (0x7f ∷ 0x45 ∷ 0x4c ∷ 0x46 ∷ 1 ∷ 1 ∷ 1 ∷ []) in
    let version = put32 20 1 (put16 18 0 (put16 16 2 ident)) in
    let tables = put_words 24 (0 ∷ ehdr_size ∷ shoff ∷ 0 ∷ []) version in
    put16 50 2 (
      put16 48 3 (put16 46 shdr_size (put16 44 1 (put16 42 phdr_size (put16 40 ehdr_size tables)))))

-- The one loadable segment.
unfoldable pub put_segment : ℕ → Image → Image
put_segment payload_len = put_words ehdr_size (
    1
    ∷ payload_off
    ∷ Hw.fw_hdr_da
    ∷ Hw.fw_hdr_da
    ∷ payload_len
    ∷ (fw_trace_da + Hw.trace_size)
    ∷ (4 + 2)
    ∷ 4096
    ∷ [])

-- The image that `main` has when it opens the file, and its length.
unfoldable pub build : ℕ × Image
unfolding put_header put_table put_names put_sections put_elf put_segment
build =
    let (rsc_end, table) = put_table (put_header (λ i. 0)) in
    let shoff = section_offset rsc_end in
    let sections = put_sections shoff rsc_end rsc_end (put_names rsc_end table) in
    (shoff + 3 * shdr_size, put_segment (rsc_end - payload_off) (put_elf shoff sections))

-- `main` by the number of its arguments, whether the file opens, and how many bytes `fwrite` takes:
-- the exit status, and what was handed to `fwrite`.
unfoldable pub main : ℕ → Bool → (ℕ → ℕ) → ℕ × Option (ℕ × Image)
main argc opens fwrite =
    if not (argc == 2)
    then (2, none)
    else if not opens
    then (1, none)
    else if not (fwrite build.0 == build.0)
    then (1, some build)
    else (0, some build)
