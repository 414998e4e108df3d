-- ===== src/Driver/Data.antt =====
-- The copies of module/src/data.c with the slots of module/src/data-transaction.c. The IDA of an
-- engine is which slots are taken, and which one `ida_alloc_max` picks is a parameter, as is what
-- `virtqueue_add_sgs` answers to a request. What a slot held before is cleared, and is left out.
pub mod Copy
pub mod Completion
pub mod InFlight
use linux_pci_driver.Common.{
  ℕ, ◌+◌, ◌-◌, ◌*◌, ◌/◌, ◌%◌, ◌^◌, ltb, leb, ◌==◌, if◌then◌else◌, Bool, true, false, not, ◌||◌,
  ◌&&◌, ◌⊎◌, inl, inr, List, [], ◌∷◌, ◌++◌, to_le16, to_le32, to_le64, update,
}
use linux_pci_driver.Hw.{engines, data_inflight, data_op_copy_h2d, data_op_copy_d2h, einval}
use linux_pci_driver.Driver.Handles.{Handle}

-- `struct velocitor_data_transaction` as it stands in a ring: where its buffer is, the queue that it
-- remembers, and the request.
pub record Posted : Type 0 where
  pub slot_idx : ℕ
  pub engine : ℕ
  pub request : List ℕ

-- `struct velocitor_data`: the next number, the slots by engine, and the transactions in the rings.
pub record Data : Type 0 where
  pub seq : ℕ
  pub slots : ℕ → ℕ → Bool
  pub posted : ℕ → List Posted

abbrev pub set_slot : ℕ → ℕ → Bool → Data → Data
set_slot engine slot taken d = record d {
  slots = update d.slots engine (update (d.slots engine) slot taken);
}

-- `velocitor_data_transaction_reset` of a transaction in a slot.
unfoldable pub transaction_reset : ℕ → ℕ → Data → Data
transaction_reset engine slot d = set_slot engine slot false d

-- The request header and the copy header.
abbrev pub copy_bytes : ℕ → ℕ → ℕ → ℕ → ℕ → ℕ → ℕ → List ℕ
copy_bytes seq generation op handle offset dma_addr len =
    to_le32 seq
    ++ (to_le32 generation
        ++ (to_le16 op
            ++ (to_le16 0
                ++ (to_le32 0
                    ++ (to_le32 handle
                        ++ (to_le32 0 ++ (to_le64 offset ++ (to_le64 dma_addr ++ to_le64 len))))))))

module _ (ida_alloc_max : (ℕ → Bool) → ℕ → ℕ ⊎ ℕ) (virtqueue_add_sgs : ℕ → List ℕ → ℕ) where
  -- The slot and the number of a new transaction, or an errno.
  unfoldable pub transaction_init : ℕ → Data → (ℕ ⊎ (ℕ × ℕ)) × Data
  transaction_init engine d = elim (ida_alloc_max (d.slots engine) (data_inflight - 1)) [
    | inl err ↦ (inl err, d)
    | inr slot ↦
        (inr (slot, d.seq), set_slot engine slot true (record d { seq = (d.seq + 1) % 2 ^ 32 }))
  ]

  unfoldable pub transaction_kick : ℕ → ℕ → List ℕ → Data → ℕ × Data
  unfolding transaction_reset
  transaction_kick engine slot request d =
      let err = virtqueue_add_sgs engine request in
      if not (err == 0)
      then (err, transaction_reset engine slot d)
      else let t : Posted = record { slot_idx = slot; engine = engine; request = request } in
        (0, record d { posted = update d.posted engine (t ∷ d.posted engine) })

  -- The rest of a copy, once it has its slot.
  unfoldable pub copy_in : ℕ → ℕ → Handle → ℕ → ℕ → ℕ → (ℕ ⊎ (ℕ × ℕ)) × Data → ℕ × Data
  unfolding transaction_kick
  copy_in engine op block offset host_addr len (inl err, d) = (err, d)
  copy_in engine op block offset host_addr len (inr (slot, seq), d) =
      transaction_kick engine slot
        (copy_bytes seq block.generation op block.handle offset host_addr len) d

  unfoldable pub data_copy : ℕ → ℕ → Handle → ℕ → ℕ → ℕ → Data → ℕ × Data
  unfolding transaction_init copy_in
  data_copy engine op block offset host_addr len d =
      if leb engines engine || (not (op == data_op_copy_h2d) && not (op == data_op_copy_d2h))
      then (einval, d)
      else if leb (2 ^ 64) (offset + len) || ltb block.size (offset + len)
      then (einval, d)
      else copy_in engine op block offset host_addr len (transaction_init engine d)
