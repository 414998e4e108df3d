-- ===== src/Driver/Data/Copy.antt =====
-- A copy of module/src/data.c: what it leaves when it fails, and what the device of
-- qemu-device/velocitor.c makes of it.
use linux_pci_driver.Common.{
  word16, word32, word64, ℕ, ◌+◌, ◌-◌, ◌/◌, ◌%◌, ◌^◌, ◌<◌, ◌≢◌, ltb, leb, ◌==◌, Bool, true, false,
  not, ◌||◌, ◌&&◌, ◌≡◌, ◌⊎◌, inl, inr, refl, sym, ap, ◌∙◌, subst, arith, List, drop, update,
  update-same, update-other, Sum-cases, choose, dchoose, ℕ_discrete,
}
use linux_pci_driver.Hw.{engines, data_inflight, data_op_copy_h2d, data_op_copy_d2h}
use linux_pci_driver.Device.Data.{parse_req, parse_copy, req_hdr_size}
use linux_pci_driver.Driver.Handles.{Handle}
use linux_pci_driver.Driver.Data.{
  Data, copy_bytes, set_slot, transaction_reset, transaction_init, transaction_kick, copy_in,
  data_copy,
}

-- A copy request is read back: out of the bytes that the driver posts, the device reads the number,
-- the generation, the operation, the handle, the offset, the address and the length that it was built
-- from, when each of them has the width of its field.
pub copy_bytes-parse :
    (seq generation op handle offset dma_addr len : ℕ)
    → seq < 2 ^ 32
    → generation < 2 ^ 32
    → op < 2 ^ 16
    → handle < 2 ^ 32
    → offset < 2 ^ 64
    → dma_addr < 2 ^ 64
    → len < 2 ^ 64
    → let b = copy_bytes seq generation op handle offset dma_addr len in
      (parse_req b ≡ record { seq = seq; generation = generation; op = op })
      × (parse_copy (drop req_hdr_size b)
          ≡ record { handle = handle; offset = offset; dma_addr = dma_addr; len = len })
copy_bytes-parse seq generation op handle offset dma_addr len a b c d e f g = (
  rw (word32 seq a, word32 generation b, word16 op c) refl,
  rw
      (
        word32 handle d,
        word32 (offset % 2 ^ 32) (omega arith),
        word32 (offset / 2 ^ 32) (omega arith),
        word64 offset e,
        word32 (dma_addr % 2 ^ 32) (omega arith),
        word32 (dma_addr / 2 ^ 32) (omega arith),
        word64 dma_addr f,
        word32 (len % 2 ^ 32) (omega arith),
        word32 (len / 2 ^ 32) (omega arith),
        word64 len g,
      )
      refl,
)

-- A failed copy leaves no trace: when `velocitor_data_copy` returns an error, because of its
-- arguments, for want of a slot or because the ring is full, every slot is as free or taken as it
-- was before, and no request has been handed to any ring. The IDA picks a slot that is free.
pub data_copy-failed :
    (ida_alloc_max : (ℕ → Bool) → ℕ → ℕ ⊎ ℕ) (virtqueue_add_sgs : ℕ → List ℕ → ℕ) (engine op : ℕ)
    (block : Handle) (offset host_addr len : ℕ) (d : Data) (e i : ℕ)
    → ((used : ℕ → Bool) (max k : ℕ) → ida_alloc_max used max ≡ inr k → used k ≡ false)
    → (data_copy ida_alloc_max virtqueue_add_sgs engine op block offset host_addr len d).0 ≢ 0
    → let d' =
        (data_copy ida_alloc_max virtqueue_add_sgs engine op block offset host_addr len d).1 in
      (d'.slots e i ≡ d.slots e i) × (d'.posted e ≡ d.posted e)
unfolding data_copy copy_in transaction_init transaction_kick transaction_reset
data_copy-failed ida_alloc_max virtqueue_add_sgs engine op block offset host_addr len d e i picks =
    choose P (leb engines engine || (not (op == data_op_copy_h2d) && not (op == data_op_copy_d2h)))
      same
      (choose P (leb (2 ^ 64) (offset + len) || ltb block.size (offset + len)) same
        (elim (Sum-cases (ida_alloc_max (d.slots engine) (data_inflight - 1))) [
          | inl (err, none_free) ↦ rw (none_free, copy_in, transaction_init) same
          | inr (slot, found) ↦
              rw (found, copy_in, transaction_init)
                (dchoose P
                  (not (
                    virtqueue_add_sgs engine
                      (copy_bytes d.seq block.generation op block.handle offset host_addr len)
                    == 0))
                  (λ full fails. (given_back slot (picks _ _ slot found), refl))
                  (λ fits fails. absurd (fails refl)))
        ]))
  where
    P : ℕ × Data → Type 0
    P r = r.0 ≢ 0 → (r.1.slots e i ≡ d.slots e i) × (r.1.posted e ≡ d.posted e)

    same : {n : ℕ} → P (n, d)
    same fails = (refl, refl)

    here :
        (slot : ℕ)
        → d.slots engine slot ≡ false
        → (set_slot engine slot false (set_slot engine slot true d)).slots engine i
          ≡ d.slots engine i
    here slot free =
        let row = update (d.slots engine) slot true in
        ap (λ (r : ℕ → Bool). r i)
          (update-same (update d.slots engine row) engine
            (update (update d.slots engine row engine) slot false))
        ∙ ap (λ (r : ℕ → Bool). update r slot false i) (update-same d.slots engine row)
        ∙ elim (ℕ_discrete i slot) [
          | yes mine ↦
              subst (λ x. update row slot false x ≡ d.slots engine x) (sym mine)
                (update-same row slot false ∙ sym free)
          | no other ↦
              update-other row slot false i other ∙ update-other (d.slots engine) slot true i other
        ]

    given_back :
        (slot : ℕ)
        → d.slots engine slot ≡ false
        → (set_slot engine slot false (set_slot engine slot true d)).slots e i ≡ d.slots e i
    given_back slot free =
        let taken = set_slot engine slot true d in
        elim (ℕ_discrete e engine) [
          | yes mine ↦
              subst
                (λ x.
                  (set_slot engine slot false (set_slot engine slot true d)).slots x i
                  ≡ d.slots x i)
                (sym mine) (here slot free)
          | no other ↦
              ap (λ (row : ℕ → Bool). row i)
                (update-other taken.slots engine (update (taken.slots engine) slot false) e other
                  ∙ update-other d.slots engine (update (d.slots engine) slot true) e other)
        ]
