-- ===== src/Device/Firmware/Boot.antt =====
-- How the firmware of qemu-device/velocitor.c comes up: what releasing RESET decides, and what a
-- finished boot leaves of the generation before.
use linux_pci_driver.Common.{
  ℕ, ◌+◌, ◌^◌, ◌≤◌, ◌<◌, ltb, leb, ◌==◌, Bool, true, false, not, ◌&&◌, ◌||◌, some, List, ◌≡◌, refl,
  sym, subst, arith, dchoose, test_bit, test_bit-bit_or,
}
use linux_pci_driver.Hw as Hw
use linux_pci_driver.Device.State.{VelocitorState, Env}
use linux_pci_driver.Device.Irq.{raise}
use linux_pci_driver.Device.Trace.{mem_read32}
use linux_pci_driver.Device.Error.{error_set}
use linux_pci_driver.Device.Allocator.{bad_handle, alloc_reset}
use linux_pci_driver.Device.Firmware.{
  fw_verify, fw_refuse, fw_accept, fw_clear, boot_done, fw_boot_latency_ns,
}
use linux_pci_driver.Device.Data.{failed, parse_req, data_serve}
use linux_pci_driver.Device.Moves.{error_any, trace_any}

-- The image that the device runs, by the header in device memory.
unfoldable pub good_header : (ℕ → ℕ) → Bool
good_header m =
    (mem_read32 m (Hw.fw_hdr_da + Hw.fw_hdr_off_magic) == Hw.fw_magic)
    && (mem_read32 m (Hw.fw_hdr_da + Hw.fw_hdr_off_abi) == Hw.fw_abi)
    && (mem_read32 m (Hw.fw_hdr_da + Hw.fw_hdr_off_trace_len) == Hw.trace_size)
    && leb (mem_read32 m (Hw.fw_hdr_da + Hw.fw_hdr_off_trace_da) + Hw.trace_size) Hw.aperture_size

-- What becomes of an image.
abbrev pub Verdict : Bool → VelocitorState → VelocitorState → Type 0
Verdict true s t =
    (t.fw_status ≡ Hw.fw_status_verified)
    × (t.fw_abi ≡ Hw.fw_abi)
    × (t.boot_timer ≡ some (s.clock + fw_boot_latency_ns))
    × (t.trace_len ≡ Hw.trace_size)
    × (t.trace_da + t.trace_len ≤ Hw.aperture_size)
    × (t.irq_status ≡ s.irq_status)
Verdict false s t =
    (t.fw_status ≡ Hw.fw_status_reset)
    × (t.fw_abi ≡ 0)
    × (t.boot_timer ≡ s.boot_timer)
    × (test_bit t.irq_status Hw.irq_vec_error ≡ true)

refuse-Verdict :
    (env : Env) (info : ℕ) (s : VelocitorState) → Verdict false s (fw_refuse env info (fw_clear s))
unfolding fw_refuse fw_clear error_set raise
refuse-Verdict env info s =
    error_any env (λ (t : VelocitorState). Verdict false s (raise Hw.irq_vec_error t)) _ _ _ _
      (fw_clear s)
      (λ e mem. (refl, refl, refl, ground (arith, test_bit-bit_or 5 s.irq_status (2 ^ 5))))

accepted :
    (m : ℕ → ℕ)
    → (not (mem_read32 m (Hw.fw_hdr_da + Hw.fw_hdr_off_magic) == Hw.fw_magic)
        || not (mem_read32 m (Hw.fw_hdr_da + Hw.fw_hdr_off_abi) == Hw.fw_abi))
      ≡ false
    → (not (mem_read32 m (Hw.fw_hdr_da + Hw.fw_hdr_off_trace_len) == Hw.trace_size)
        || ltb Hw.aperture_size (
            mem_read32 m (Hw.fw_hdr_da + Hw.fw_hdr_off_trace_da)
            + mem_read32 m (Hw.fw_hdr_da + Hw.fw_hdr_off_trace_len)))
      ≡ false
    → good_header m ≡ true
unfolding good_header
accepted m first second = ground arith

-- Releasing RESET with a good header in memory verifies the image: its ABI and a trace buffer that
-- lies in the fixed aperture are taken, and the boot timer is armed. With any other header the
-- status is RESET, the ABI is 0, the error interrupt is latched, and the boot timer is left as it
-- was, armed if it was armed.
pub fw_verify_lem :
    (env : Env) (s : VelocitorState) → Verdict (good_header s.mem) s (fw_verify env s)
unfolding fw_verify good_header fw_accept fw_clear
fw_verify_lem env s =
    let magic = mem_read32 s.mem (Hw.fw_hdr_da + Hw.fw_hdr_off_magic) in
    let abi = mem_read32 s.mem (Hw.fw_hdr_da + Hw.fw_hdr_off_abi) in
    let da = mem_read32 s.mem (Hw.fw_hdr_da + Hw.fw_hdr_off_trace_da) in
    let len = mem_read32 s.mem (Hw.fw_hdr_da + Hw.fw_hdr_off_trace_len) in
    let refused = λ (info : ℕ) (e : good_header s.mem ≡ false).
      subst (λ (g : Bool). Verdict g s (fw_refuse env info (fw_clear s))) (sym e)
        (refuse-Verdict env info s) in
    dchoose (Verdict (good_header s.mem) s) (not (magic == Hw.fw_magic) || not (abi == Hw.fw_abi))
      (λ bad. refused magic (ground arith))
      λ first.
        dchoose (Verdict (good_header s.mem) s)
          (not (len == Hw.trace_size) || ltb Hw.aperture_size (da + len))
          (λ bad. refused da (ground arith))
          (λ good.
            subst (λ (g : Bool). Verdict g s (fw_accept abi da len (fw_clear s)))
              (sym (accepted s.mem first good))
              (refl, ground arith, refl, ground arith, ground arith, refl))

-- A finished boot starts a new generation, a 32-bit number, with the firmware running: no handle of
-- the generation before is live, and every data request that carries its number is refused with
-- ESTALE.
pub boot_done-stale :
    (env : Env) (q len handle : ℕ) (b : List ℕ) (s : VelocitorState)
    → s.generation < 2 ^ 32
    → (parse_req b).generation ≡ s.generation
    → ((boot_done env s).fw_status ≡ Hw.fw_status_running)
      × (bad_handle (boot_done env s).heap handle ≡ true)
      × ((data_serve env q len b (boot_done env s)).0 ≡ failed Hw.estale)
unfolding boot_done data_serve alloc_reset bad_handle
boot_done-stale env q len handle b s lt old =
    trace_any env
      (λ (t : VelocitorState).
        (t.fw_status ≡ Hw.fw_status_running)
        × (bad_handle t.heap handle ≡ true)
        × ((data_serve env q len b t).0 ≡ failed Hw.estale))
      _ _ _ _ _ (λ mem. (refl, ground arith, ground arith))
