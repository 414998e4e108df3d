-- ===== src/Mkfw/Loading.antt =====
-- The image of firmware/mkfw.c in the device of qemu-device/velocitor.c: its segment is loaded, and
-- RESET released.
use linux_pci_driver.Common.{
  ℕ, ◌+◌, ◌<◌, ltb, ◌==◌, not, ◌||◌, Bool, true, ◌≡◌, refl, subst, ◌∙◌, arith, load, store, le32,
  dchoose,
}
use linux_pci_driver.Hw as Hw
use linux_pci_driver.Device.State.{VelocitorState, Env}
use linux_pci_driver.Device.Trace.{mem_read32}
use linux_pci_driver.Device.Firmware.{fw_verify, fw_accept, fw_clear}
use linux_pci_driver.Device.Firmware.Boot.{Verdict, good_header, fw_verify_lem}
use linux_pci_driver.Mkfw.{
  build, ehdr_size, fw_trace_da, put_header, put_table, put_names, put_sections, put_elf,
  put_segment, emit_heap, emit_vdev, emit_vring,
}

-- A word of the program header of the image.
abbrev pub segment_field : ℕ → ℕ
segment_field off = le32 (load build.1 (ehdr_size + off) 4) 0

-- The bytes from p_offset of the file on, p_filesz of them, are at p_paddr of device memory.
abbrev pub Loaded : (ℕ → ℕ) → Type 0
Loaded m = (i : ℕ) → i < segment_field 16 → m (segment_field 12 + i) ≡ build.1 (segment_field 4 + i)

loaded_word :
    (m : ℕ → ℕ)
    → Loaded m
    → (good_header m ≡ true) × (mem_read32 m Hw.fw_hdr_off_trace_da ≡ fw_trace_da)
unfolding build put_header put_table put_names put_sections put_elf put_segment emit_heap emit_vdev
    emit_vring load store good_header mem_read32
loaded_word m at =
    rw
      (
        at 0 (omega arith),
        at 1 (omega arith),
        at 2 (omega arith),
        at 3 (omega arith),
        at 4 (omega arith),
        at 5 (omega arith),
        at 6 (omega arith),
        at 7 (omega arith),
        at 8 (omega arith),
        at 9 (omega arith),
        at 10 (omega arith),
        at 11 (omega arith),
        at 12 (omega arith),
        at 13 (omega arith),
        at 14 (omega arith),
        at 15 (omega arith),
      )
      (refl, refl)

accepted_trace :
    (env : Env) (s : VelocitorState)
    → good_header s.mem ≡ true
    → (fw_verify env s).trace_da ≡ mem_read32 s.mem Hw.fw_hdr_off_trace_da
unfolding fw_verify good_header fw_accept fw_clear
accepted_trace env s good =
    let at = λ (off : ℕ). mem_read32 s.mem (Hw.fw_hdr_da + off) in
    let P = λ (t : VelocitorState). t.trace_da ≡ at Hw.fw_hdr_off_trace_da in
    dchoose P
      (not (at Hw.fw_hdr_off_magic == Hw.fw_magic) || not (at Hw.fw_hdr_off_abi == Hw.fw_abi))
      (λ bad. absurd (ground arith))
      λ _.
        dchoose P
          (not (at Hw.fw_hdr_off_trace_len == Hw.trace_size)
            || ltb Hw.aperture_size (at Hw.fw_hdr_off_trace_da + at Hw.fw_hdr_off_trace_len))
          (λ bad. absurd (ground arith)) (λ _. refl)

-- The device accepts the image of the generator: when the segment of the file stands in device
-- memory where its program header puts it, releasing RESET verifies the firmware with its ABI, arms
-- the boot timer, raises nothing new, and takes the 64 KiB from device address 64 KiB on as the
-- trace buffer.
pub build-fw_verify :
    (env : Env) (s : VelocitorState)
    → Loaded s.mem
    → (Verdict true s (fw_verify env s)) × ((fw_verify env s).trace_da ≡ fw_trace_da)
build-fw_verify env s at =
    let (good, trace) = loaded_word s.mem at in
    (
      subst (λ (g : Bool). Verdict g s (fw_verify env s)) good (fw_verify_lem env s),
      accepted_trace env s good ∙ trace,
    )
