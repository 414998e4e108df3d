-- ===== src/Driver/Tests/Transactions.antt =====
-- The theorems about the control transactions of module/src, at concrete runs.
use linux_pci_driver.Common.{
  ℕ, zero, suc, ◌+◌, ◌-◌, ◌≤◌, ◌≡◌, ◌⊎◌, refl, arith, true, false, none, some, [], ◌∷◌, ◌++◌, ◌&&◌,
  ◌==◌, le32,
}
use linux_pci_driver.Hw as Hw
use linux_pci_driver.Device.Rpmsg.{ctrl_hdr}
use linux_pci_driver.Driver.Ctrl.{
  Transaction, State, transaction_alloc, rpmsg_callback, rpmsg_remove, settle, take_reply,
  fill_answer, reply_status, answer_len, transaction_notify, transaction_release, kref_put,
  new_transaction,
}
use linux_pci_driver.Driver.Ctrl.Send.{request_bytes, transaction_wait}
use linux_pci_driver.Driver.Ctrl.Once.{find}
use linux_pci_driver.Driver.Ctrl.Once.Steps.{
  Run, here, next, allocs, fills, replies, notified_once, rpmsg_remove-notified,
}
use linux_pci_driver.Driver.Ctrl.Drained.{
  Drained, rpmsg_remove-Drained, rpmsg_remove-transaction_wait,
}
use linux_pci_driver.Driver.Ctrl.Reply.{
  good_reply, Answered, complete, rpmsg_callback_lem, ctrl_hdr-good_reply,
}
use linux_pci_driver.Driver.Tests.{one_idr, probed, allocated, asking, answer}

asking-Run : Run one_idr probed asking
asking-Run = next (next (here probed) (allocs true false probed)) (fills 0 Hw.op_stat [] allocated)

abbrev answered : State one_idr
answered = rpmsg_callback one_idr answer asking

answered-Run : Run one_idr probed answered
answered-Run = next asking-Run (replies answer asking)

no_entry : (k : ℕ) → find one_idr probed k ≡ none
no_entry zero = refl
no_entry (suc zero) = refl
no_entry (suc (suc k)) = refl

allocated_one : asking.kmalloc ≡ 1
unfolding transaction_alloc
allocated_one = refl

answered_one : answered.kmalloc ≡ 1
unfolding transaction_alloc rpmsg_callback take_reply fill_answer answer_len reply_status settle
    transaction_notify transaction_release kref_put
answered_one = refl

one_entry : find one_idr asking 1 ≡ some 0
unfolding transaction_alloc
one_entry = refl

few : one_idr.entries asking.inflight_reqs ≤ 1
unfolding transaction_alloc
few = omega arith

notified_once_example :
    (((answered.cell 0).notified ≡ 0) × (find one_idr answered (answered.cell 0).seq ≡ some 0))
    ⊎ ((answered.cell 0).notified ≡ 1)
notified_once_example =
    notified_once one_idr probed answered 0 (refl, no_entry) answered-Run
      (omega (arith, answered_one))

rpmsg_remove_example :
    ((rpmsg_remove one_idr 1 asking).0 ≡ true)
    × ((k : ℕ) → find one_idr (rpmsg_remove one_idr 1 asking).1 k ≡ none)
    × (((rpmsg_remove one_idr 1 asking).1.cell 0).notified ≡ 1)
rpmsg_remove_example =
    rpmsg_remove-notified one_idr probed asking 1 0 (refl, no_entry) asking-Run few
      (omega (arith, allocated_one))

rpmsg_remove-Drained_example : Drained (asking.cell 0) ((rpmsg_remove one_idr 1 asking).1.cell 0)
rpmsg_remove-Drained_example =
    rpmsg_remove-Drained one_idr probed asking 1 1 0 (refl, no_entry) asking-Run few one_entry

waiting_call : (asking.cell 0).callback ≡ false
unfolding transaction_alloc
waiting_call = refl

rpmsg_remove_wait_example :
    (e : State one_idr) × (transaction_wait one_idr (λ b. 0) 0 (rpmsg_remove one_idr 1 asking).1
      ≡ some (Hw.estale, e))
rpmsg_remove_wait_example =
    rpmsg_remove-transaction_wait one_idr probed asking 1 1 0 (refl, no_entry) asking-Run few
      one_entry waiting_call

ready : asking.drvdata ≡ true
unfolding transaction_alloc
ready = refl

rpmsg_callback_example :
    (one_idr.idr_find answered.inflight_reqs (le32 answer 0) ≡ none)
    × Answered
        (good_reply answer (asking.cell 0))
        (answer_len (asking.cell 0).op)
        answer
        (asking.cell 0).answer
        (answered.cell 0)
    × ((answered.cell 0).notified ≡ (asking.cell 0).notified + 1)
    × ((answered.cell 0).refcount ≡ (asking.cell 0).refcount - 1)
    × (answered.cell 1 ≡ asking.cell 1)
rpmsg_callback_example =
    rpmsg_callback_lem one_idr asking answer 0 1 ready (omega arith) one_entry (omega arith)

abbrev stat_request : Transaction
stat_request = record (new_transaction 7 false) { op = Hw.op_stat }

ctrl_hdr_example :
    let msg = ctrl_hdr (request_bytes stat_request 0) 0 ++ (1 ∷ 2 ∷ []) in
    (le32 msg 0 ≡ 7)
    × (good_reply msg stat_request ≡ ((0 == 0) && complete (answer_len Hw.op_stat) msg))
ctrl_hdr_example =
    ctrl_hdr-good_reply stat_request 0 0 (1 ∷ 2 ∷ []) (omega arith) (omega arith) (omega arith)
