-- ===== src/Device/Irq/Latch.antt =====
-- The interrupt causes of qemu-device/velocitor.c between `velocitor_raise` and a write of IRQ_ACK.
use linux_pci_driver.Common.{
  ℕ, ◌%◌, ◌^◌, if◌then◌else◌, Bool, true, false, not, ◌&&◌, List, ◌∷◌, ◌≡◌, refl, ◌∙◌, arith,
  bit_and, test_bit, complement, test_bit-bit_and, test_bit-bit_or, test_bit-complement32,
  Bool-cases, inl, inr,
}
use linux_pci_driver.Hw.{irq_latched, irq_vec_error}
use linux_pci_driver.Hw.Reg.{decode}
use linux_pci_driver.Hw.Offsets.{reg_irq_ack}
use linux_pci_driver.Device.State.{VelocitorState, Env, Machine}
use linux_pci_driver.Device.Irq.{latch, deliver, raise}
use linux_pci_driver.Device.Bar0.{access_ok, bar0_write, reg_write}

latched : (status : ℕ) → test_bit (latch irq_vec_error status) irq_vec_error ≡ true
latched status = ground (arith, test_bit-bit_or 5 status (2 ^ 5))

and_false : (b : Bool) (xs ys : List ℕ) → ys ≡ (if b && false then xs else ys)
and_false true xs ys = refl
and_false false xs ys = refl

and_true :
    (b : Bool) (m : Machine) (xs : List ℕ)
    → (if b then record m { messages = xs } else m).messages
      ≡ (if b && true then xs else m.messages)
and_true true m xs = refl
and_true false m xs = refl

and_last : (b : Bool) → not (b && true) ≡ not b
and_last true = refl
and_last false = refl

sent :
    (mask : ℕ) (m : Machine)
    → (deliver irq_vec_error mask m).messages ≡ (
        if m.msix_enabled && not (test_bit mask irq_vec_error)
        then irq_vec_error ∷ m.messages
        else m.messages)
sent mask m = elim (Bool-cases (test_bit mask irq_vec_error)) [
  | inl e ↦ rw e (and_false m.msix_enabled (irq_vec_error ∷ m.messages) m.messages)
  | inr e ↦ rw e (and_true m.msix_enabled m (irq_vec_error ∷ m.messages))
]

low_bit : (val : ℕ) → test_bit (val % 2 ^ 32) 5 ≡ test_bit val 5
low_bit val = ground arith

acked :
    (val status : ℕ)
    → test_bit
        (bit_and (latch irq_vec_error status) (complement 32 (bit_and (val % 2 ^ 32) irq_latched)))
        irq_vec_error
      ≡ not (test_bit val irq_vec_error)
acked val status =
    let bits = bit_and (val % 2 ^ 32) irq_latched in
    test_bit-bit_and 5 (latch irq_vec_error status) (complement 32 bits)
    ∙ rw
        (
          latched status,
          test_bit-complement32 bits,
          test_bit-bit_and 5 (val % 2 ^ 32) irq_latched,
          low_bit val,
        )
        (and_last (test_bit val 5))

-- Raising the error vector latches its cause whether or not the driver masked it; the message goes
-- out exactly if the guest enabled MSI-X and the mask leaves the vector open; and a write of IRQ_ACK
-- takes the cause away exactly if it has the bit of the vector set.
pub raise_ack :
    (env : Env) (val : ℕ) (s : VelocitorState)
    → let t = raise irq_vec_error s in
      let u = bar0_write env reg_irq_ack val 4 t in
      (test_bit t.irq_status irq_vec_error ≡ true)
      × (t.messages ≡ (
          if s.msix_enabled && not (test_bit s.irq_mask irq_vec_error)
          then irq_vec_error ∷ s.messages
          else s.messages))
      × (test_bit u.irq_status irq_vec_error ≡ not (test_bit val irq_vec_error))
unfolding raise bar0_write reg_write decode access_ok
raise_ack env val s = (latched s.irq_status, sent s.irq_mask s.machine, acked val s.irq_status)
