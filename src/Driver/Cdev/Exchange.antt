-- ===== src/Driver/Cdev/Exchange.antt =====
-- One control request of module/src/cdev.c that the device answers: from the allocation of the
-- transaction to the wait for its answer.
pub mod Reply
pub mod Steps
use linux_pci_driver.Common.{
  ℕ, ◌+◌, ◌-◌, ◌^◌, ◌≤◌, ◌<◌, leb, ltb, ◌==◌, if◌then◌else◌, Bool, true, false, not, ◌||◌, ◌&&◌,
  ◌≡◌, ◌≢◌, refl, sym, ap, subst, ◌∙◌, arith, inl, inr, Option, none, some, List, [], ◌++◌, length,
  length-append, take, update, update-same, choose, le16, le32,
}
use linux_pci_driver.Hw.{rpmsg_ctrl_addr, trace_level_info, trace_engine_none}
use linux_pci_driver.Device.State.{VelocitorState, Env, control_line}
use linux_pci_driver.Device.Trace.{trace}
use linux_pci_driver.Device.Rpmsg.{
  Served, ctrl_msg_size, ctrl_hdr, ctrl_serve, rpmsg_send, rpmsg_recv,
}
use linux_pci_driver.Device.Rpmsg.Reply.{rpmsg_recv-heap}
use linux_pci_driver.Driver.Idr.{Idr}
use linux_pci_driver.Driver.Ctrl.{
  Ctrl, Transaction, State, set_cell, new_transaction, transaction_alloc, transaction_release,
  transaction_notify, settle, take_reply, fill_answer, answer_len, reply_status, kref_put,
  rpmsg_callback, msg_size,
}
use linux_pci_driver.Driver.Ctrl.Settling.{
  settled, settled_status, settled_answer, settled_rest, settle-cell,
}
use linux_pci_driver.Driver.Ctrl.Drained.{wait-lem}
use linux_pci_driver.Driver.Ctrl.Send.{
  payload_len, request_bytes, kref_get, transaction_send, transaction_wait,
}
use linux_pci_driver.Driver.Cdev.Exchange.Steps.{
  alloc-lem, await-lem, await-none, wait-none, send-lem, callback-lem,
}
use linux_pci_driver.Driver.Cdev.{
  World, Kernel, Outcome, release_after, await, after_send, submit, transact,
}

abbrev was_sent : {A : Type 0} → Option A → Bool
was_sent none = false
was_sent (some a) = true

-- Whether `velocitor_rpmsg_recv` puts the reply of a request that it served on the receive ring.
abbrev pub sends_reply : Env → ℕ → List ℕ → Served → Bool
sends_reply env src req ((status, payload), s) =
    let traced =
      trace env trace_level_info trace_engine_none (le32 req 0) (control_line (le16 req 4) src) s in
    let sent = rpmsg_send env rpmsg_ctrl_addr src (ctrl_hdr req status ++ payload) traced in
    not (ltb (length req) ctrl_msg_size) && was_sent sent.0

-- The device of qemu-device/velocitor.c runs `velocitor_rpmsg_recv` while the caller sleeps, on the
-- request as it was sent and from the endpoint `src` of the driver. The driver's callback gets the
-- reply if it was put on the ring and if it also `arrives`, which is up to the virtio core, and does not
-- happen if the used ring could not be written; else the driver sees nothing of it.
pub served : (idr : Idr) → Env → ℕ → Bool → ℕ → ℕ → Kernel idr → Kernel idr
served idr env src arrives len a w =
    let req = request_bytes (w.ctrl.cell a) len in
    let x = ctrl_serve env (le16 req 4) req (length req) w.device in
    record w {
      ctrl =
          if sends_reply env src req x && arrives
          then rpmsg_callback idr (ctrl_hdr req x.0.0 ++ x.0.1) w.ctrl
          else w.ctrl;
      device = rpmsg_recv env src req (length req) w.device;
    }

take_reply-rest :
    (msg : List ℕ) (t : Transaction)
    → ((take_reply msg t).callback ≡ t.callback) × ((take_reply msg t).done ≡ t.done)
unfolding take_reply
take_reply-rest msg t =
    let P = λ (u : Transaction). (u.callback ≡ t.callback) × (u.done ≡ t.done) in
    choose P (not (le16 msg 4 == t.op)) (refl, refl)
      (choose P (not (reply_status (le32 msg 8) == 0)) (refl, refl) (filled (answer_len t.op)))
  where
    filled :
        (len : Option ℕ)
        → let u = fill_answer len msg (record t { status = 0 }) in
          (u.callback ≡ t.callback) × (u.done ≡ t.done)
    filled none = (refl, refl)
    filled (some n) =
        choose (λ (u : Transaction). (u.callback ≡ t.callback) × (u.done ≡ t.done))
          (ltb (length msg - msg_size) n) (refl, refl) (refl, refl)

module _ (idr : Idr) (env : Env) (src : ℕ) (arrives : Bool) (w : Kernel idr) (op len seq : ℕ)
    (payload : List ℕ) (table : idr.Table) where
  -- The transaction as it is sent, and the device's part.
  abbrev pub asked : Transaction
  asked = record (new_transaction seq false) { op = op; payload = payload; refcount = 2 }

  abbrev pub request : List ℕ
  request = request_bytes asked len

  abbrev pub answer : (ℕ × List ℕ) × VelocitorState
  answer = ctrl_serve env op request (length request) w.device

  -- Whether the driver gets the reply, and the device after it.
  abbrev pub heard : Bool
  heard = sends_reply env src request answer && arrives

  abbrev pub device_after : VelocitorState
  device_after = rpmsg_recv env src request (length request) w.device

  -- The allocator of the device is then what the service of the request made of it.
  pub device_after-heap : op < 2 ^ 16 → device_after.heap ≡ answer.1.heap
  device_after-heap small =
      let operation : le16 request 4 ≡ op = omega (arith, small) in
      let long : ltb (length request) ctrl_msg_size ≡ false = ground arith in
      rpmsg_recv-heap env src request (length request) w.device long
      ∙ ap (λ o. (ctrl_serve env o request (length request) w.device).1.heap) operation

  -- What the transaction holds when its caller wakes up.
  abbrev pub woken : Transaction
  woken = take_reply (ctrl_hdr request answer.0.0 ++ answer.0.1) asked

  -- The control plane with the new transaction, with its request, and with the request sent.
  abbrev added : State idr
  added =
      set_cell idr w.ctrl.kmalloc (new_transaction seq false)
        (record w.ctrl { inflight_reqs = table; kmalloc = w.ctrl.kmalloc + 1 })

  abbrev filled : State idr
  filled =
      set_cell idr w.ctrl.kmalloc
        (record (added.cell w.ctrl.kmalloc) { op = op; payload = payload }) added

  abbrev sent : State idr
  sent = set_cell idr w.ctrl.kmalloc (kref_get (filled.cell w.ctrl.kmalloc)) filled

  abbrev reply : List ℕ
  reply = ctrl_hdr request answer.0.0 ++ answer.0.1

  abbrev replied : State idr
  replied =
      settle idr w.ctrl.kmalloc (take_reply reply (sent.cell w.ctrl.kmalloc))
        (record sent { inflight_reqs = idr.idr_remove table (le32 reply 0) })

  filled-cell :
      filled.cell w.ctrl.kmalloc ≡ record (new_transaction seq false) { op = op; payload = payload }
  filled-cell =
      let a = w.ctrl.kmalloc in
      update-same added.cell a (record (added.cell a) { op = op; payload = payload })
      ∙ ap (λ (t : Transaction). record t { op = op; payload = payload })
          (update-same w.ctrl.cell a (new_transaction seq false))

  sent-cell : sent.cell w.ctrl.kmalloc ≡ asked
  unfolding kref_get
  sent-cell =
      let a = w.ctrl.kmalloc in
      update-same filled.cell a (kref_get (filled.cell a)) ∙ ap kref_get filled-cell

  replied-cell : replied.cell w.ctrl.kmalloc ≡ settled woken
  replied-cell =
      let a = w.ctrl.kmalloc in
      let plain : (take_reply reply (sent.cell a)).callback ≡ false =
        (take_reply-rest reply (sent.cell a)).0 ∙ ap (λ (t : Transaction). t.callback) sent-cell in
      settle-cell idr a (take_reply reply (sent.cell a))
        (record sent { inflight_reqs = idr.idr_remove table (le32 reply 0) }) plain
      ∙ ap (λ t. settled (take_reply reply t)) sent-cell

  module _ (there : w.ctrl.drvdata ≡ true) (small_seq : seq < 2 ^ 32) (small_op : op < 2 ^ 16)
      (got : idr.idr_alloc_cyclic w.ctrl.inflight_reqs w.ctrl.kmalloc ≡ inr (seq, table)) where
    served-sent :
        served idr env src arrives len w.ctrl.kmalloc (record w { ctrl = sent }) ≡ record w {
          ctrl = if heard then rpmsg_callback idr reply sent else sent;
          device = device_after;
        }
    unfolding served
    served-sent =
        let from : ℕ → List ℕ → Kernel idr = λ o req.
          let x = ctrl_serve env o req (length req) w.device in
          record w {
            ctrl =
                if sends_reply env src req x && arrives
                then rpmsg_callback idr (ctrl_hdr req x.0.0 ++ x.0.1) sent
                else sent;
            device = rpmsg_recv env src req (length req) w.device;
          } in
        let operation : le16 request 4 ≡ op = omega arith in
        ap (λ t. from (le16 (request_bytes t len) 4) (request_bytes t len)) sent-cell
        ∙ ap (λ o. from o request) operation

    served-heard :
        (b : Bool) (c : State idr)
        → heard ≡ b
        → (if b then rpmsg_callback idr reply sent else sent) ≡ c
        → served idr env src arrives len w.ctrl.kmalloc (record w { ctrl = sent })
          ≡ record w { ctrl = c; device = device_after }
    served-heard b c is ends =
        served-sent
        ∙ ap
            (λ (x : Bool). record w {
              ctrl = if x then rpmsg_callback idr reply sent else sent;
              device = device_after;
            })
            is
        ∙ ap (λ d. record w { ctrl = d; device = device_after }) ends

    served-replied :
        heard ≡ true
        → served idr env src arrives len w.ctrl.kmalloc (record w { ctrl = sent })
          ≡ record w { ctrl = replied; device = device_after }
    served-replied is =
        let number : le32 reply 0 ≡ seq = omega arith in
        let long : msg_size ≤ length reply = omega arith in
        served-heard true replied is (
          callback-lem idr w.ctrl.kmalloc reply sent there long (
            ap (idr.idr_find table) number
            ∙ idr.is_there w.ctrl.inflight_reqs table w.ctrl.kmalloc seq got))

  -- The request goes out, the device serves it, and a caller that the reply reaches goes on with what
  -- `take_reply` makes of it.
  pub transact-served :
      {A : Type 0} (use_answer : Transaction → Kernel idr → (ℕ × Option A) × Kernel idr)
      → w.ctrl.rpdev ≡ true
      → w.ctrl.drvdata ≡ true
      → idr.idr_alloc_cyclic w.ctrl.inflight_reqs w.ctrl.kmalloc ≡ inr (seq, table)
      → seq < 2 ^ 32
      → op < 2 ^ 16
      → payload_len op ≡ some len
      → heard ≡ true
      → (c : Ctrl idr.Table) × (u : Transaction) × (u.status ≡ woken.status)
        × (u.answer ≡ woken.answer)
        × (transact idr true (λ b. 0) (served idr env src arrives len) op payload use_answer w
            ≡ release_after idr true
                (λ b. 0)
                (served idr env src arrives len)
                w.ctrl.kmalloc
                (let w1 = record w { ctrl = c; device = device_after } in
                  if woken.status == 0 then use_answer u w1 else ((woken.status, none), w1)))
  unfolding after_send await release_after submit transact
  transact-served use_answer up there got small_seq small_op known is =
      let a = w.ctrl.kmalloc in
      let now = record (settled woken) { done = (settled woken).done - 1 } in
      let c = set_cell idr a now replied in
      let woke =
        wait-lem idr a replied (settled woken) replied-cell
          ((settled_rest woken).0 ∙ (take_reply-rest reply asked).0)
          (λ e. omega (arith, e, (settled_rest woken).1)) in
      let cell : c.cell a ≡ now = update-same (replied).cell a now in
      let goes =
        send-lem idr a op len filled (ap (λ (t : Transaction). t.op) filled-cell) known up in
      (
        c,
        c.cell a,
        ap (λ (t : Transaction). t.status) cell ∙ settled_status woken,
        ap (λ (t : Transaction). t.answer) cell ∙ settled_answer woken,
        ap (submit idr true (λ b. 0) (served idr env src arrives len) op payload use_answer w)
              (alloc-lem idr seq table w.ctrl got)
            ∙ ap (after_send idr true (λ b. 0) (served idr env src arrives len) a use_answer w) goes
            ∙ ap (await idr true (λ b. 0) (served idr env src arrives len) a use_answer)
                (served-replied there small_seq small_op got is)
            ∙ await-lem idr (λ b. 0) (served idr env src arrives len) a use_answer
                (record w { ctrl = replied; device = device_after }) (settled woken).status c woke
            ∙ ap
                (λ status.
                  let w1 = record w { ctrl = c; device = device_after } in
                  release_after idr true (λ b. 0) (served idr env src arrives len) a
                    (if status == 0 then use_answer (c.cell a) w1 else ((status, none), w1)))
                (settled_status woken),
      )

  -- A caller that the reply does not reach sleeps on.
  pub transact-lost :
      {A : Type 0} (use_answer : Transaction → Kernel idr → (ℕ × Option A) × Kernel idr)
      → w.ctrl.rpdev ≡ true
      → w.ctrl.drvdata ≡ true
      → idr.idr_alloc_cyclic w.ctrl.inflight_reqs w.ctrl.kmalloc ≡ inr (seq, table)
      → seq < 2 ^ 32
      → op < 2 ^ 16
      → payload_len op ≡ some len
      → heard ≡ false
      → transact idr true (λ b. 0) (served idr env src arrives len) op payload use_answer w ≡ none
  unfolding after_send submit transact
  transact-lost use_answer up there got small_seq small_op known is =
      let a = w.ctrl.kmalloc in
      let goes =
        send-lem idr a op len filled (ap (λ (t : Transaction). t.op) filled-cell) known up in
      ap (submit idr true (λ b. 0) (served idr env src arrives len) op payload use_answer w)
        (alloc-lem idr seq table w.ctrl got)
      ∙ ap (after_send idr true (λ b. 0) (served idr env src arrives len) a use_answer w) goes
      ∙ ap (await idr true (λ b. 0) (served idr env src arrives len) a use_answer)
          (served-heard there small_seq small_op got false sent is refl)
      ∙ await-none idr (λ b. 0) (served idr env src arrives len) a use_answer
          (record w { ctrl = sent; device = device_after })
          (wait-none idr a sent asked sent-cell refl refl)
