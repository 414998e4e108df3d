-- ===== src/Driver/Ctrl/Reply.antt =====
-- The reply to a control transaction of module/src/ctrl.c, as any device may send it, and as the
-- device of qemu-device/velocitor.c does.
use linux_pci_driver.Common.{
  ℕ, ◌+◌, ◌-◌, ◌^◌, ◌≤◌, ◌<◌, leb, ltb, ◌==◌, Bool, true, false, not, ◌&&◌, ◌||◌, ◌≡◌, ◌≢◌, refl,
  sym, ap, ◌∙◌, arith, inl, inr, Option, none, some, List, ◌++◌, take, drop, length, le16, le32,
  Bool-cases,
}
use linux_pci_driver.Device.Rpmsg.{ctrl_hdr}
use linux_pci_driver.Driver.Idr.{Idr}
use linux_pci_driver.Driver.Ctrl.{
  Transaction, State, settle, take_reply, fill_answer, reply_status, answer_len, msg_size,
  rpmsg_callback,
}
use linux_pci_driver.Driver.Ctrl.Send.{request_bytes}
use linux_pci_driver.Driver.Ctrl.Settling.{settle-Settled, take_reply-kept}

-- There is an operation, and its answer is there in full.
abbrev pub complete : Option ℕ → List ℕ → Bool
complete none msg = false
complete (some n) msg = leb n (length msg - msg_size)

-- A reply that answers the request: the same operation, the status 0, a complete payload.
abbrev pub good_reply : List ℕ → Transaction → Bool
good_reply msg t = (le16 msg 4 == t.op) && (le32 msg 8 == 0) && complete (answer_len t.op) msg

abbrev pub answer_of : Option ℕ → List ℕ → List ℕ → List ℕ
answer_of none msg old = old
answer_of (some n) msg old = take n (drop msg_size msg) ++ drop n old

-- What the caller finds.
abbrev pub Answered : Bool → Option ℕ → List ℕ → List ℕ → Transaction → Type 0
Answered true len msg old u = (u.status ≡ 0) × (u.answer ≡ answer_of len msg old)
Answered false len msg old u = (u.status ≢ 0) × (u.answer ≡ old)

le32_bound : (msg : List ℕ) (o : ℕ) → le32 msg o < 2 ^ 32
le32_bound msg o = omega arith

status_zero : (w : ℕ) → w < 2 ^ 32 → (reply_status w == 0) ≡ (w == 0)
unfolding reply_status
status_zero w lt = ground arith

fill-Answered :
    (len : Option ℕ) (msg : List ℕ) (t : Transaction)
    → t.status ≡ 0
    → Answered (complete len msg) len msg t.answer (fill_answer len msg t)
unfolding fill_answer
fill-Answered none msg t clear = (λ e. cc e, refl)
fill-Answered (some n) msg t clear = elim (Bool-cases (leb n (length msg - msg_size))) [
  | inl whole ↦
      let enough : ltb (length msg - msg_size) n ≡ false = ground arith in
      rw (whole, enough) (clear, refl)
  | inr short ↦
      let cut : ltb (length msg - msg_size) n ≡ true = ground arith in
      rw (short, cut) (λ e. cc e, refl)
]

reply-Answered :
    (msg : List ℕ) (t : Transaction)
    → Answered (good_reply msg t) (answer_len t.op) msg t.answer (take_reply msg t)
unfolding take_reply
reply-Answered msg t =
    let zero = status_zero (le32 msg 8) (le32_bound msg 8) in
    elim (Bool-cases (le16 msg 4 == t.op)) [
      | inr other ↦ rw other (λ e. cc e, refl)
      | inl same ↦ elim (Bool-cases (le32 msg 8 == 0)) [
        | inl ok ↦
            rw (same, zero, ok) (fill-Answered (answer_len t.op) msg (record t { status = 0 }) refl)
        | inr failed ↦ rw (same, zero, failed) (λ e. ground (arith, zero), refl)
      ]
    ]

Answered-same :
    (good : Bool) (len : Option ℕ) (msg old : List ℕ) (u v : Transaction)
    → v.status ≡ u.status
    → v.answer ≡ u.answer
    → Answered good len msg old u
    → Answered good len msg old v
Answered-same true len msg old u v status answer (s, a) = (status ∙ s, answer ∙ a)
Answered-same false len msg old u v status answer (s, a) = (λ e. s (sym status ∙ e), answer ∙ a)

judged :
    (msg : List ℕ) (t : Transaction) (status : ℕ)
    → le16 msg 4 ≡ t.op
    → le32 msg 8 ≡ status
    → good_reply msg t ≡ ((status == 0) && complete (answer_len t.op) msg)
judged msg t status same verdict = ground arith

-- A reply takes the transaction that waits under its number out of the table, for good: it is
-- notified, the reference of the table is dropped, and every other transaction stays as it was. The
-- caller finds the status 0 and the payload of the reply exactly if the reply is to the same
-- operation, has the status 0 and a payload of the length that the operation has; otherwise it
-- finds an error and its answer untouched.
pub rpmsg_callback_lem :
    (idr : Idr) (c : State idr) (msg : List ℕ) (a b : ℕ)
    → c.drvdata ≡ true
    → msg_size ≤ length msg
    → idr.idr_find c.inflight_reqs (le32 msg 0) ≡ some a
    → b ≢ a
    → let d = rpmsg_callback idr msg c in
      (idr.idr_find d.inflight_reqs (le32 msg 0) ≡ none)
      × Answered
          (good_reply msg (c.cell a))
          (answer_len (c.cell a).op)
          msg
          (c.cell a).answer
          (d.cell a)
      × ((d.cell a).notified ≡ (c.cell a).notified + 1)
      × ((d.cell a).refcount ≡ (c.cell a).refcount - 1)
      × (d.cell b ≡ c.cell b)
unfolding rpmsg_callback
rpmsg_callback_lem idr c msg a b there long here other =
    let t = take_reply msg (c.cell a) in
    let len = answer_len (c.cell a).op in
    let kept = take_reply-kept msg (c.cell a) in
    let seq = le32 msg 0 in
    let settled =
      settle-Settled idr a t (record c { inflight_reqs = idr.idr_remove c.inflight_reqs seq }) in
    let allowed : (ltb (length msg) msg_size || not c.drvdata) ≡ false = ground arith in
    rw (allowed, here)
      (
        ap (λ u. idr.idr_find u seq) settled.table ∙ idr.removed c.inflight_reqs seq,
        Answered-same (good_reply msg (c.cell a)) len msg (c.cell a).answer t
            ((settle idr a t (record c { inflight_reqs = idr.idr_remove c.inflight_reqs seq })).cell
              a)
            settled.same_status settled.same_answer (reply-Answered msg (c.cell a)),
        settled.notified_once ∙ ap (λ n. n + 1) kept.1,
        settled.put ∙ ap (λ n. n - 1) kept.2,
        settled.rest b other,
      )

-- The device's answer reaches the request it answers: whatever payload it puts behind it, the header
-- that the device writes for the bytes of a request carries the request's number, and the driver
-- takes the reply for a good one exactly if the status is 0 and the payload complete.
pub ctrl_hdr-good_reply :
    (t : Transaction) (len status : ℕ) (payload : List ℕ)
    → t.seq < 2 ^ 32
    → t.op < 2 ^ 16
    → status < 2 ^ 32
    → let msg = ctrl_hdr (request_bytes t len) status ++ payload in
      (le32 msg 0 ≡ t.seq) × (good_reply msg t ≡ ((status == 0) && complete (answer_len t.op) msg))
ctrl_hdr-good_reply t len status payload seq op small =
    let msg = ctrl_hdr (request_bytes t len) status ++ payload in
    let number : le32 msg 0 ≡ t.seq = omega arith in
    let operation : le16 msg 4 ≡ t.op = omega arith in
    let verdict : le32 msg 8 ≡ status = omega arith in
    (number, judged msg t status operation verdict)
