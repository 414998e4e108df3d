-- ===== src/Driver/Cdev/Exchange/Steps.antt =====
-- The steps of one control request of module/src/cdev.c: the allocation of the transaction, the send,
-- the reply's callback and the wait.
use linux_pci_driver.Common.{
  ℕ, ◌+◌, ◌≤◌, ltb, ◌==◌, if◌then◌else◌, true, false, not, ◌||◌, ◌≡◌, refl, ap, ◌∙◌, arith, inr,
  Option, none, some, List, length, le32,
}
use linux_pci_driver.Driver.Idr.{Idr}
use linux_pci_driver.Driver.Ctrl.{
  Transaction, State, set_cell, new_transaction, transaction_alloc, settle, take_reply,
  rpmsg_callback, msg_size,
}
use linux_pci_driver.Driver.Ctrl.Send.{payload_len, kref_get, transaction_send, transaction_wait}
use linux_pci_driver.Driver.Cdev.{Kernel, release_after, await}

module _ (idr : Idr) where
  pub alloc-lem :
      (seq : ℕ) (table : idr.Table) (c : State idr)
      → idr.idr_alloc_cyclic c.inflight_reqs c.kmalloc ≡ inr (seq, table)
      → transaction_alloc idr true false c ≡ (
        inr c.kmalloc,
        set_cell idr c.kmalloc
            (new_transaction seq false)
            (record c { inflight_reqs = table; kmalloc = c.kmalloc + 1 }),
      )
  unfolding transaction_alloc
  alloc-lem seq table c got = rw got refl

  module _ (rpmsg_send : List ℕ → ℕ) (meanwhile : ℕ → Kernel idr → Kernel idr) {A : Type 0} (a : ℕ)
      (use_answer : Transaction → Kernel idr → (ℕ × Option A) × Kernel idr) where
    pub await-lem :
        (w : Kernel idr) (status : ℕ) (c : State idr)
        → transaction_wait idr (λ b. 0) a w.ctrl ≡ some (status, c)
        → await idr true rpmsg_send meanwhile a use_answer w
          ≡ release_after idr true rpmsg_send meanwhile a (
              let w1 = record w { ctrl = c } in
              if status == 0 then use_answer (c.cell a) w1 else ((status, none), w1))
    unfolding await
    await-lem w status c e = rw (e, await) refl

  module _ (rpmsg_send : List ℕ → ℕ) (meanwhile : ℕ → Kernel idr → Kernel idr) {A : Type 0} (a : ℕ)
      (use_answer : Transaction → Kernel idr → (ℕ × Option A) × Kernel idr) where
    pub await-none :
        (w : Kernel idr)
        → transaction_wait idr (λ b. 0) a w.ctrl ≡ none
        → await idr true rpmsg_send meanwhile a use_answer w ≡ none
    unfolding await
    await-none w e = rw (e, await) refl

  pub wait-none :
      (a : ℕ) (c : State idr) (t : Transaction)
      → c.cell a ≡ t
      → t.callback ≡ false
      → t.done ≡ 0
      → transaction_wait idr (λ b. 0) a c ≡ none
  unfolding transaction_wait
  wait-none a c t is plain waits =
      let waiting : (t.done == 0) ≡ true = ground arith in rw (is, plain, waiting) refl

  pub send-lem :
      (a op len : ℕ) (c : State idr)
      → (c.cell a).op ≡ op
      → payload_len op ≡ some len
      → c.rpdev ≡ true
      → transaction_send idr (λ b. 0) a c ≡ (0, set_cell idr a (kref_get (c.cell a)) c)
  unfolding transaction_send
  send-lem a op len c same known up =
      let asks : payload_len (c.cell a).op ≡ some len = ap payload_len same ∙ known in
      rw (asks, transaction_send, up) refl

  pub callback-lem :
      (a : ℕ) (msg : List ℕ) (c : State idr)
      → c.drvdata ≡ true
      → msg_size ≤ length msg
      → idr.idr_find c.inflight_reqs (le32 msg 0) ≡ some a
      → rpmsg_callback idr msg c
        ≡ settle idr a
            (take_reply msg (c.cell a))
            (record c { inflight_reqs = idr.idr_remove c.inflight_reqs (le32 msg 0) })
  unfolding rpmsg_callback
  callback-lem a msg c there long here =
      let allowed : (ltb (length msg) msg_size || not c.drvdata) ≡ false = ground arith in
      rw (allowed, here) refl
