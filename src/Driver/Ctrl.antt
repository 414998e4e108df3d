-- ===== src/Driver/Ctrl.antt =====
-- The control transactions of module/src/ctrl-transaction.c and module/src/ctrl.c. A transaction is
-- found by its address, a number that is never used again; a `status` n stands for the C value -n.
pub mod Send
pub mod Settling
pub mod Once
pub mod Drained
pub mod Reply
use linux_pci_driver.Common.{
  ℕ, zero, suc, ◌+◌, ◌-◌, ◌^◌, ltb, leb, ◌==◌, if◌then◌else◌, Bool, true, false, not, ◌||◌, ◌⊎◌,
  inl, inr, Option, none, some, List, [], ◌++◌, take, drop, length, le16, le32, update,
}
use linux_pci_driver.Hw.{
  op_info, op_alloc, op_free, op_stat, enomem, eproto, eremoteio, ecanceled, estale,
}
use linux_pci_driver.Driver.Idr.{Idr}

-- `struct velocitor_ctrl_transaction_private`. `callback` says that it has `velocitor_ctrl_oninfo` as
-- its callback, the only one of the module, and no completion. `done` counts the completions that
-- nobody has waited for, `notified` all notifications, and `freed` is `kfree`.
pub record Transaction : Type 0 where
  pub op : ℕ
  pub payload : List ℕ
  pub seq : ℕ
  pub status : ℕ
  pub answer : List ℕ
  pub callback : Bool
  pub done : ℕ
  pub notified : ℕ
  pub refcount : ℕ
  pub freed : Bool

-- `struct velocitor_ctrl`. `rpdev` says whether there is a channel, `drvdata` whether its driver data
-- points here; `kmalloc` is where the next transaction goes.
pub record Ctrl (Table : Type 0) : Type 0 where
  pub inflight_reqs : Table
  pub cell : ℕ → Transaction
  pub kmalloc : ℕ
  pub rpdev : Bool
  pub drvdata : Bool
  pub info : List ℕ
  pub info_valid : Bool

-- sizeof(struct velocitor_ctrl_msg), and of the payloads of its requests and answers.
abbrev pub msg_size : ℕ
msg_size = 16

abbrev pub info_resp_size : ℕ
info_resp_size = 28

abbrev pub alloc_resp_size : ℕ
alloc_resp_size = 24

abbrev pub stat_resp_size : ℕ
stat_resp_size = 40

-- The payload of an answer; none for an operation that there is not.
unfoldable pub answer_len : ℕ → Option ℕ
answer_len op =
    if op == op_info
    then some info_resp_size
    else if op == op_alloc
    then some alloc_resp_size
    else if op == op_free
    then some 0
    else if op == op_stat
    then some stat_resp_size
    else none

-- A cleared structure with its number, its callback and the caller's reference.
abbrev pub new_transaction : ℕ → Bool → Transaction
new_transaction seq callback = record {
  op = 0;
  payload = [];
  seq = seq;
  status = 0;
  answer = [];
  callback = callback;
  done = 0;
  notified = 0;
  refcount = 1;
  freed = false;
}

-- A `s32` that is 0 or the negative of an errno, up to MAX_ERRNO.
unfoldable pub reply_status : ℕ → ℕ
reply_status w = if w == 0 then 0 else if leb (2 ^ 32 - 4095) w then 2 ^ 32 - w else eremoteio

-- `velocitor_ctrl_transaction_free` at the last reference.
unfoldable pub kref_put : Transaction → Transaction
kref_put t = record t { refcount = t.refcount - 1; freed = t.freed || leb t.refcount 1 }

-- `memcpy` of the payload into the answer, if it is there in full.
unfoldable pub fill_answer : Option ℕ → List ℕ → Transaction → Transaction
fill_answer none msg t = record t { status = eremoteio }
fill_answer (some n) msg t =
    if ltb (length msg - msg_size) n
    then record t { status = eproto }
    else record t { answer = take n (drop msg_size msg) ++ drop n t.answer }

-- The checks of the callback on the reply to a transaction, in their order.
unfoldable pub take_reply : List ℕ → Transaction → Transaction
unfolding fill_answer
take_reply msg t =
    let status = reply_status (le32 msg 8) in
    if not (le16 msg 4 == t.op)
    then record t { status = eremoteio }
    else if not (status == 0)
    then record t { status = status }
    else fill_answer (answer_len t.op) msg (record t { status = 0 })

module _ (idr : Idr) where
  abbrev pub State : Type 0
  State = Ctrl idr.Table

  abbrev pub set_cell : ℕ → Transaction → State → State
  set_cell a t c = record c { cell = update c.cell a t }

  unfoldable pub transaction_release : ℕ → State → State
  transaction_release a c = set_cell a (kref_put (c.cell a)) c

  -- `velocitor_ctrl_oninfo`, the callback of the handshake.
  unfoldable pub oninfo : Transaction → State → State
  oninfo t c =
      if not (t.status == 0)
      then c
      else record c { info = take info_resp_size t.answer; info_valid = true }

  unfoldable pub transaction_notify : ℕ → State → State
  unfolding oninfo
  transaction_notify a c =
      let t = record (c.cell a) { notified = (c.cell a).notified + 1 } in
      if (c.cell a).callback
      then oninfo t (set_cell a t c)
      else set_cell a (record t { done = t.done + 1 }) c

  -- One notify and one release: what the one who took the entry out of the table owes.
  unfoldable pub settle : ℕ → Transaction → State → State
  unfolding transaction_notify transaction_release
  settle a t c = transaction_release a (transaction_notify a (set_cell a t c))

  unfoldable pub transaction_cancel : ℕ → State → State
  unfolding settle
  transaction_cancel a c =
      let seq = (c.cell a).seq in
      let c1 = record c { inflight_reqs = idr.idr_remove c.inflight_reqs seq } in
      elim (idr.idr_find c.inflight_reqs seq) [
        | none ↦ c1
        | some claimed ↦ settle a (record (c.cell a) { status = ecanceled }) c1
      ]

  -- With or without memory for the structure, and with or without the callback: the error, or the
  -- address of the transaction.
  unfoldable pub transaction_alloc : Bool → Bool → State → (ℕ ⊎ ℕ) × State
  transaction_alloc memory callback c =
      let a = c.kmalloc in
      if not memory then (inl enomem, c) else elim (idr.idr_alloc_cyclic c.inflight_reqs a) [
        | inl err ↦ (inl err, c)
        | inr (seq, table) ↦ (
          inr a,
          set_cell a (new_transaction seq callback)
              (record c { inflight_reqs = table; kmalloc = a + 1 }),
        )
      ]

  -- `velocitor_ctrl_rpmsg_callback`.
  unfoldable pub rpmsg_callback : List ℕ → State → State
  unfolding settle take_reply
  rpmsg_callback msg c =
      let seq = le32 msg 0 in
      let c1 = record c { inflight_reqs = idr.idr_remove c.inflight_reqs seq } in
      if ltb (length msg) msg_size || not c.drvdata
      then c
      else elim (idr.idr_find c.inflight_reqs seq) [
        | none ↦ c
        | some a ↦ settle a (take_reply msg (c.cell a)) c1
      ]

  -- The loop of `velocitor_ctrl_rpmsg_remove`, with `fuel` rounds at most, and whether it ended.
  unfoldable pub drain : ℕ → State → Bool × State
  unfolding settle
  drain zero c = elim (idr.idr_get_next c.inflight_reqs) [ none ↦ (true, c) | some _ ↦ (false, c) ]
  drain (suc fuel) c = elim (idr.idr_get_next c.inflight_reqs) [
    | none ↦ (true, c)
    | some (seq, a) ↦ drain fuel (
        settle a (record (c.cell a) { status = estale })
          (record c { inflight_reqs = idr.idr_remove c.inflight_reqs seq }))
  ]

  unfoldable pub rpmsg_remove : ℕ → State → Bool × State
  unfolding drain
  rpmsg_remove fuel c = drain fuel (record c { rpdev = false; drvdata = false })
