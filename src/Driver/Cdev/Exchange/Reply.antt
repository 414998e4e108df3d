-- ===== src/Driver/Cdev/Exchange/Reply.antt =====
-- What `velocitor_ctrl_rpmsg_callback` of module/src/ctrl.c takes from a reply of the control plane of
-- qemu-device/velocitor.c.
use linux_pci_driver.Common.{
  ℕ, ◌-◌, ◌^◌, ◌≤◌, ◌<◌, ltb, ◌==◌, true, false, not, ◌≡◌, ◌≢◌, refl, ap, ◌∙◌, arith, some, List,
  ◌++◌, drop, take, length, le16, le32, word16, word32,
}
use linux_pci_driver.Device.Rpmsg.{ctrl_hdr, neg32}
use linux_pci_driver.Driver.Ctrl.{
  Transaction, take_reply, fill_answer, answer_len, reply_status, msg_size,
}

reply_status-neg32 : (e : ℕ) → e < 4096 → reply_status (neg32 e) ≡ e
unfolding reply_status
reply_status-neg32 e lt = ground arith

module _ (msg : List ℕ) (t : Transaction) (same : le16 msg 4 ≡ t.op) where
  refused_status :
      reply_status (le32 msg 8) ≢ 0 → (take_reply msg t).status ≡ reply_status (le32 msg 8)
  unfolding take_reply
  refused_status bad =
      let op : (not (le16 msg 4 == t.op)) ≡ false = ground arith in
      let st : (not (reply_status (le32 msg 8) == 0)) ≡ true = ground arith in rw (op, st) refl

  good_reply :
      (n : ℕ)
      → le32 msg 8 ≡ 0
      → answer_len t.op ≡ some n
      → n ≤ length msg - msg_size
      → take_reply msg t
        ≡ record t { status = 0; answer = take n (drop msg_size msg) ++ drop n t.answer }
  unfolding take_reply fill_answer reply_status
  good_reply n zero known long =
      let op : (not (le16 msg 4 == t.op)) ≡ false = ground arith in
      let fits : (ltb (length msg - msg_size) n) ≡ false = ground arith in
      rw (op, zero, known, fits) refl

-- The header of the reply names the request's operation and carries the status.
pub header_words :
    (req payload : List ℕ) (status : ℕ)
    → le16 req 4 < 2 ^ 16
    → status < 2 ^ 32
    → (le16 (ctrl_hdr req status ++ payload) 4 ≡ le16 req 4)
      × (le32 (ctrl_hdr req status ++ payload) 8 ≡ status)
header_words req payload status lt small = (word16 (le16 req 4) lt, word32 status small)

module _ (req : List ℕ) (t : Transaction) (same : le16 req 4 ≡ t.op) (small : t.op < 2 ^ 16) where
  small_op : le16 req 4 < 2 ^ 16
  small_op = omega (arith, same, small)

  -- A refusal reaches the transaction as the errno that the device gave.
  pub reply-error :
      (payload : List ℕ) (e : ℕ)
      → 0 < e
      → e < 4096
      → (take_reply (ctrl_hdr req (neg32 e) ++ payload) t).status ≡ e
  reply-error payload e pos lt =
      let msg = ctrl_hdr req (neg32 e) ++ payload in
      let (op, st) = header_words req payload (neg32 e) small_op (omega arith) in
      let is : reply_status (le32 msg 8) ≡ e = ap reply_status st ∙ reply_status-neg32 e lt in
      refused_status msg t (op ∙ same) (λ z. omega (arith, z, is, pos)) ∙ is

  -- A reply with all of its payload is taken over.
  pub reply-good :
      (payload : List ℕ) (n : ℕ)
      → answer_len t.op ≡ some n
      → n ≤ length payload
      → take_reply (ctrl_hdr req 0 ++ payload) t
        ≡ record t { status = 0; answer = take n payload ++ drop n t.answer }
  reply-good payload n known long =
      let (op, st) = header_words req payload 0 small_op (omega arith) in
      good_reply (ctrl_hdr req 0 ++ payload) t (op ∙ same) n st known (omega (arith, long))
