-- ===== src/Driver/Tests/Slots.antt =====
-- The theorems about the slots of module/src/data-transaction.c, on a copy and an interrupt.
use linux_pci_driver.Common.{
  ℕ, zero, suc, ◌<◌, ◌≤◌, ◌≡◌, ◌⊎◌, refl, arith, inl, inr, if◌then◌else◌, Bool, true, false, Option,
  none, some, List, [], ◌∷◌, length,
}
use linux_pci_driver.Hw as Hw
use linux_pci_driver.Driver.Handles.{Handle}
use linux_pci_driver.Driver.Data.{
  Data, Posted, data_copy, copy_in, transaction_init, transaction_kick,
}
use linux_pci_driver.Driver.Data.Completion.{data_virtio_remove}
use linux_pci_driver.Driver.Data.InFlight.{holds, AllFrom}
use linux_pci_driver.Driver.Data.InFlight.Steps.{Run, here, next, copies, slots_in_flight}
use linux_pci_driver.Driver.Data.InFlight.Removal.{data_virtio_remove-freed}

-- An IDA that gives out slot 0 or slot 1, or ENOSPC.
abbrev two_slots : (ℕ → Bool) → ℕ → ℕ ⊎ ℕ
two_slots used max = if used 0 then if used 1 then inl 28 else inr 1 else inr 0

picks : (used : ℕ → Bool) (max k : ℕ) → two_slots used max ≡ inr k → used k ≡ false
picks used max k e = ground (arith, e)

abbrev first_place : List Posted → Option ℕ
first_place [] = none
first_place (t ∷ l) = some 0

gets_all : (l : List Posted) → first_place l ≡ none → l ≡ []
gets_all [] e = refl
gets_all (t ∷ l) e = absurd (cc e)

inside : (l : List Posted) (k : ℕ) → first_place l ≡ some k → k < length l
inside [] k e = absurd (cc e)
inside (t ∷ l) k e = ground (arith, e)

abbrev idle : Data
idle = record { seq = 0; slots = λ q i. false; posted = λ q. [] }

abbrev block : Handle
block = record { handle = 1; generation = 1; size = 256; node = 0; dev_offset = 0x1000000 }

abbrev one_copy : Data → Data
one_copy d = (data_copy two_slots (λ q request. 0) 1 Hw.data_op_copy_h2d block 0 0x1000 64 d).1

two_copies : Run two_slots idle (one_copy (one_copy idle))
two_copies =
    next (next here (copies (λ q request. 0) 1 Hw.data_op_copy_h2d block 0 0x1000 64 idle))
      (copies (λ q request. 0) 1 Hw.data_op_copy_h2d block 0 0x1000 64 (one_copy idle))

slots_in_flight_example :
    let d = one_copy (one_copy idle) in
    ((i : ℕ) → holds i (d.posted 1) ≡ (if d.slots 1 i then 1 else 0)) × AllFrom 1 (d.posted 1)
slots_in_flight_example =
    slots_in_flight two_slots idle (one_copy (one_copy idle)) 1 picks (λ q. (λ i. refl, refl))
      two_copies

few : (p : ℕ) → p < Hw.engines → length ((one_copy (one_copy idle)).posted p) ≤ 2
unfolding data_copy copy_in transaction_init transaction_kick
few zero lt = omega arith
few (suc zero) lt = omega arith
few (suc (suc p)) lt = absurd (omega (arith, lt))

data_virtio_remove_example :
    let r = data_virtio_remove first_place 2 (one_copy (one_copy idle)) in
    (r.0 ≡ true) × (r.1.posted 1 ≡ []) × ((i : ℕ) → r.1.slots 1 i ≡ false)
data_virtio_remove_example =
    data_virtio_remove-freed two_slots first_place idle (one_copy (one_copy idle)) 2 1 picks
      gets_all inside (λ q. (λ i. refl, refl)) two_copies few (omega arith)
