-- ===== src/Driver/Ctrl/Send.antt =====
-- Sending a control request, waiting for its answer, and the handshake of a new channel:
-- `velocitor_ctrl_transaction_send` and `_wait` of module/src/ctrl-transaction.c, and
-- `velocitor_ctrl_rpmsg_probe` of module/src/ctrl.c.
use linux_pci_driver.Common.{
  ℕ, ◌+◌, ◌-◌, ◌==◌, if◌then◌else◌, Bool, true, false, not, ◌||◌, inl, inr, Option, none, some,
  List, ◌++◌, take, to_le16, to_le32,
}
use linux_pci_driver.Hw.{op_info, op_alloc, op_free, op_stat, enodev, einval}
use linux_pci_driver.Driver.Idr.{Idr}
use linux_pci_driver.Driver.Ctrl.{
  Transaction, State, set_cell, transaction_release, transaction_cancel, transaction_alloc,
}

-- The payload of a request; none for an operation that there is not.
unfoldable pub payload_len : ℕ → Option ℕ
payload_len op =
    if (op == op_info) || (op == op_stat)
    then some 0
    else if op == op_alloc
    then some 16
    else if op == op_free
    then some 8
    else none

-- The header, and as much of the payload as goes with the operation.
abbrev pub request_bytes : Transaction → ℕ → List ℕ
request_bytes t len =
    to_le32 t.seq
    ++ (to_le16 t.op ++ (to_le16 0 ++ (to_le32 0 ++ (to_le32 0 ++ take len t.payload))))

-- `kref_get` of the reference that the send puts on the entry.
unfoldable pub kref_get : Transaction → Transaction
kref_get t = record t { refcount = t.refcount + 1 }

module _ (idr : Idr) (rpmsg_send : List ℕ → ℕ) where
  -- Nothing else happens between the parts of the send here; Once has them as steps of their own.
  unfoldable pub transaction_send : ℕ → State idr → ℕ × State idr
  unfolding kref_get payload_len
  transaction_send a c =
      let t = c.cell a in
      elim (payload_len t.op) [
        | none ↦ (einval, c)
        | some len ↦
            let c1 = set_cell idr a (kref_get t) c in
            let err = if not c.rpdev then enodev else rpmsg_send (request_bytes t len) in
            (err, if err == 0 then c1 else transaction_cancel idr a c1)
      ]

  -- None while the completion is not there. A cell that was freed still reads as it was: whether one is
  -- freed too early is its field `freed`, which this does not look at.
  unfoldable pub transaction_wait : ℕ → State idr → Option (ℕ × State idr)
  transaction_wait a c =
      let t = c.cell a in
      if t.callback
      then some (einval, c)
      else if t.done == 0
      then none
      else some (t.status, set_cell idr a (record t { done = t.done - 1 }) c)

  -- The channel is taken back when the handshake could not be sent.
  abbrev pub forget_channel : State idr → State idr
  forget_channel c = record c { rpdev = false; drvdata = false }

  unfoldable pub rpmsg_probe : Bool → Bool → State idr → ℕ × State idr
  unfolding transaction_send transaction_alloc transaction_release
  rpmsg_probe device memory c =
      let (got, c1) =
        transaction_alloc idr memory true (record c { rpdev = true; drvdata = true }) in
      if not device then (enodev, c) else elim got [
        | inl err ↦ (err, forget_channel c1)
        | inr a ↦
            let (err, c2) =
              transaction_send a (set_cell idr a (record (c1.cell a) { op = op_info }) c1) in
            let c3 = transaction_release idr a c2 in
            (err, if err == 0 then c3 else forget_channel c3)
      ]
