-- ===== src/Driver/Ctrl/Once/Steps.antt =====
-- The calls and events on the control transactions of module/src/ctrl-transaction.c and
-- module/src/ctrl.c in any order, one at a time, with the parts of a send as steps of their own.
use linux_pci_driver.Common.{
  ℕ, ◌+◌, ◌≤◌, ◌<◌, ltb, Bool, true, false, not, ◌||◌, ◌≡◌, ◌≢◌, ◌⊎◌, refl, sym, ap, ◌∙◌, arith,
  inl, inr, none, some, List, length, le32, Sum-cases, update, update-same, update-other,
  Option-cases, ℕ_discrete, choose,
}
use linux_pci_driver.Hw.{ecanceled}
use linux_pci_driver.Driver.Idr.{Idr}
use linux_pci_driver.Driver.Ctrl.{
  Transaction, State, set_cell, new_transaction, kref_put, msg_size, take_reply, transaction_alloc,
  transaction_release, transaction_cancel, rpmsg_callback, rpmsg_remove,
}
use linux_pci_driver.Driver.Ctrl.Send.{kref_get}
use linux_pci_driver.Driver.Ctrl.Settling.{settle-Settled, take_reply-kept}
use linux_pci_driver.Driver.Ctrl.Once.{
  some-eq, find, claim, Once, claim-Once, cells-Once, drain_lem,
}

module _ (idr : Idr) where
  pub data Step : State idr → State idr → Type 0 where
    allocs :
        (memory callback : Bool) (c : State idr)
        → Step c (transaction_alloc idr memory callback c).1
    -- The caller writes its request, and takes the reference of the send.
    fills :
        (a op : ℕ) (payload : List ℕ) (c : State idr)
        → Step c (set_cell idr a (record (c.cell a) { op = op; payload = payload }) c)
    gets : (a : ℕ) (c : State idr) → Step c (set_cell idr a (kref_get (c.cell a)) c)
    -- The number of the one that is cancelled has not been given to another one since.
    cancels :
        (a : ℕ) (c : State idr)
        → ((b : ℕ) → find idr c (c.cell a).seq ≡ some b → b ≡ a)
        → Step c (transaction_cancel idr a c)
    waits : (a n : ℕ) (c : State idr) → Step c (set_cell idr a (record (c.cell a) { done = n }) c)
    releases : (a : ℕ) (c : State idr) → Step c (transaction_release idr a c)
    opens :
        (rpdev drvdata : Bool) (c : State idr)
        → Step c (record c { rpdev = rpdev; drvdata = drvdata })
    replies : (msg : List ℕ) (c : State idr) → Step c (rpmsg_callback idr msg c)
    removes :
        (fuel : ℕ) (c : State idr)
        → idr.entries c.inflight_reqs ≤ fuel
        → Step c (rpmsg_remove idr fuel c).1

  pub data Run : State idr → State idr → Type 0 where
    here : (c : State idr) → Run c c
    next : {c d e : State idr} → Run c d → Step d e → Run c e

  cell-Once :
      (c : State idr) (a : ℕ) (t : Transaction)
      → t.seq ≡ (c.cell a).seq
      → t.notified ≡ (c.cell a).notified
      → Once idr c
      → Once idr (set_cell idr a t c)
  cell-Once c a t seq count once =
      cells-Once idr c (update c.cell a t)
        (λ b. elim (ℕ_discrete b a) [
          | yes same ↦
              let e : update c.cell a t b ≡ t =
                ap (update c.cell a t) same ∙ update-same c.cell a t in
              (
                ap (λ (u : Transaction). u.seq) e ∙ seq ∙ ap (λ x. (c.cell x).seq) (sym same),
                ap (λ (u : Transaction). u.notified) e
                    ∙ count
                    ∙ ap (λ x. (c.cell x).notified) (sym same),
              )
          | no other ↦
              let e = update-other c.cell a t b other in
              (ap (λ (u : Transaction). u.seq) e, ap (λ (u : Transaction). u.notified) e)
        ])
        once

  -- Taking out an entry that is not there keeps the invariant.
  miss-Once : (c : State idr) (k : ℕ) → find idr c k ≡ none → Once idr c → Once idr (claim idr k c)
  miss-Once c k gone once = record {
    listed = λ j a e. elim (ℕ_discrete j k) [
      | yes same ↦
          absurd (cc (ap (find idr (claim idr k c)) (sym same) ∙ e, idr.removed c.inflight_reqs k))
      | no other ↦ once.listed j a (sym (idr.others c.inflight_reqs k j other) ∙ e)
    ];
    accounted = λ a lt. elim (once.accounted a lt) [
      | inl (n, e) ↦ inl (
        n,
        idr.others c.inflight_reqs k (c.cell a).seq
              (λ same. cc (sym e ∙ ap (find idr c) same, gone))
            ∙ e,
      )
      | inr n ↦ inr n
    ];
  }

  module _ (c : State idr) (once : Once idr c) (seq : ℕ) (table : idr.Table)
      (got : idr.idr_alloc_cyclic c.inflight_reqs c.kmalloc ≡ inr (seq, table))
      (callback : Bool) where
    added : State idr
    added =
        set_cell idr c.kmalloc (new_transaction seq callback)
          (record c { inflight_reqs = table; kmalloc = c.kmalloc + 1 })

    new_cell : added.cell c.kmalloc ≡ new_transaction seq callback
    unfolding added
    new_cell = update-same c.cell c.kmalloc (new_transaction seq callback)

    old_cell : (b : ℕ) → b ≢ c.kmalloc → added.cell b ≡ c.cell b
    unfolding added
    old_cell b other = update-other c.cell c.kmalloc (new_transaction seq callback) b other

    added-Once : Once idr added
    unfolding added
    added-Once = record { listed = kept; accounted = left }
      where
        kept :
            (j b : ℕ)
            → find idr added j ≡ some b
            → ((added.cell b).seq ≡ j) × (b < added.kmalloc) × ((added.cell b).notified ≡ 0)
        kept j b e = elim (ℕ_discrete j seq) [
          | yes same ↦
              let mine : b ≡ c.kmalloc = some-eq b c.kmalloc (
                sym e
                ∙ ap (idr.idr_find table) same
                ∙ idr.is_there c.inflight_reqs table c.kmalloc seq got) in
              let cell : added.cell b ≡ new_transaction seq callback =
                ap added.cell mine ∙ new_cell in
              (
                ap (λ (u : Transaction). u.seq) cell ∙ sym same,
                omega (arith, mine),
                ap (λ (u : Transaction). u.notified) cell,
              )
          | no other ↦
              let before =
                once.listed j b
                  (sym (idr.as_before c.inflight_reqs table c.kmalloc seq j got other) ∙ e) in
              let cell = old_cell b (omega (arith, before.1)) in
              (
                ap (λ (u : Transaction). u.seq) cell ∙ before.0,
                omega (arith, before.1),
                ap (λ (u : Transaction). u.notified) cell ∙ before.2,
              )
        ]

        left :
            (b : ℕ)
            → b < added.kmalloc
            → (((added.cell b).notified ≡ 0) × (find idr added (added.cell b).seq ≡ some b))
              ⊎ ((added.cell b).notified ≡ 1)
        left b lt = elim (ℕ_discrete b c.kmalloc) [
          | yes mine ↦
              let cell : added.cell b ≡ new_transaction seq callback =
                ap added.cell mine ∙ new_cell in
              inl (
                ap (λ (u : Transaction). u.notified) cell,
                ap (λ (u : Transaction). idr.idr_find table u.seq) cell
                    ∙ idr.is_there c.inflight_reqs table c.kmalloc seq got
                    ∙ ap some (sym mine),
              )
          | no other ↦
              let cell = old_cell b other in
              elim (once.accounted b (omega arith)) [
                | inl (n, e) ↦ inl (
                  ap (λ (u : Transaction). u.notified) cell ∙ n,
                  ap (λ (u : Transaction). idr.idr_find table u.seq) cell
                      ∙ idr.as_before c.inflight_reqs table c.kmalloc seq (c.cell b).seq got
                          (λ same. cc (
                            sym e ∙ ap (find idr c) same,
                            idr.was_free c.inflight_reqs table c.kmalloc seq got,
                          ))
                      ∙ e,
                )
                | inr n ↦ inr (ap (λ (u : Transaction). u.notified) cell ∙ n)
              ]
        ]

  alloc-Once :
      (memory callback : Bool) (c : State idr)
      → Once idr c
      → Once idr (transaction_alloc idr memory callback c).1
  unfolding transaction_alloc added
  alloc-Once memory callback c once =
      choose (λ (r : (ℕ ⊎ ℕ) × State idr). Once idr r.1) (not memory) once
        (elim (Sum-cases (idr.idr_alloc_cyclic c.inflight_reqs c.kmalloc)) [
          | inl (err, e) ↦ rw e once
          | inr ((seq, table), e) ↦ rw e (added-Once c once seq table e callback)
        ])

  cancel-Once :
      (a : ℕ) (c : State idr)
      → ((b : ℕ) → find idr c (c.cell a).seq ≡ some b → b ≡ a)
      → Once idr c
      → Once idr (transaction_cancel idr a c)
  unfolding transaction_cancel
  cancel-Once a c own once =
      let seq = (c.cell a).seq in
      elim (Option-cases (find idr c seq)) [
        | inl gone ↦ rw (gone, transaction_cancel) (miss-Once c seq gone once)
        | inr (b, e) ↦
            let t = record (c.cell a) { status = ecanceled } in
            rw (e, transaction_cancel)
              (claim-Once idr c once seq a (e ∙ ap some (own b e)) t _ refl refl
                (settle-Settled idr a t (claim idr seq c)))
      ]

  reply-Once : (msg : List ℕ) (c : State idr) → Once idr c → Once idr (rpmsg_callback idr msg c)
  unfolding rpmsg_callback
  reply-Once msg c once =
      let seq = le32 msg 0 in
      choose (Once idr) (ltb (length msg) msg_size || not c.drvdata) once
        (elim (Option-cases (find idr c seq)) [
          | inl gone ↦ rw gone once
          | inr (a, e) ↦
              let t = take_reply msg (c.cell a) in
              let (number, count, _) = take_reply-kept msg (c.cell a) in
              rw e (
                claim-Once idr c once seq a e t _ number count
                  (settle-Settled idr a t (claim idr seq c)))
        ])

  Step-Once : {c d : State idr} → Step c d → Once idr c → Once idr d
  unfolding transaction_release kref_put kref_get rpmsg_remove
  Step-Once (allocs memory callback c) once = alloc-Once memory callback c once
  Step-Once (fills a op payload c) once = cell-Once c a _ refl refl once
  Step-Once (gets a c) once = cell-Once c a _ refl refl once
  Step-Once (cancels a c own) once = cancel-Once a c own once
  Step-Once (waits a n c) once = cell-Once c a _ refl refl once
  Step-Once (releases a c) once = cell-Once c a _ refl refl once
  Step-Once (opens rpdev drvdata c) once = record {
    listed = once.listed;
    accounted = once.accounted;
  }
  Step-Once (replies msg c) once = reply-Once msg c once
  Step-Once (removes fuel c few) once =
      (drain_lem idr fuel _ (record { listed = once.listed; accounted = once.accounted }) few).1

  pub Run-Once : {c d : State idr} → Once idr c → Run c d → Once idr d
  Run-Once once (here _) = once
  Run-Once once (next run step) = Step-Once step (Run-Once once run)

  -- The table of a card that was probed: nothing in it, no transaction so far.
  abbrev pub Fresh : State idr → Type 0
  Fresh c = (c.kmalloc ≡ 0) × ((k : ℕ) → find idr c k ≡ none)

  pub Fresh-Once : (c : State idr) → Fresh c → Once idr c
  Fresh-Once c (zero, empty) = record {
    listed = λ k a e. absurd (cc (empty k, e));
    accounted = λ a lt. absurd (omega arith);
  }

-- Whatever the order of calls, replies, failed sends and closings of the channel, every transaction
-- that was ever allocated is either still in the table under its number and not notified, or has
-- been notified exactly once: no caller waits for nothing, and none is woken twice. A transaction is
-- only cancelled while no other one has been given its number.
pub notified_once :
    (idr : Idr) (c d : State idr) (a : ℕ)
    → Fresh idr c
    → Run idr c d
    → a < d.kmalloc
    → (((d.cell a).notified ≡ 0) × (find idr d (d.cell a).seq ≡ some a)) ⊎ ((d.cell a).notified ≡ 1)
notified_once idr c d a fresh run lt = (Run-Once idr (Fresh-Once idr c fresh) run).accounted a lt

-- When the channel goes away, the loop that drains the table ends after at most as many rounds as
-- there are entries, and then the table is empty and every transaction that was ever allocated has
-- been notified exactly once.
pub rpmsg_remove-notified :
    (idr : Idr) (c d : State idr) (fuel a : ℕ)
    → Fresh idr c
    → Run idr c d
    → idr.entries d.inflight_reqs ≤ fuel
    → a < d.kmalloc
    → ((rpmsg_remove idr fuel d).0 ≡ true)
      × ((k : ℕ) → find idr (rpmsg_remove idr fuel d).1 k ≡ none)
      × (((rpmsg_remove idr fuel d).1.cell a).notified ≡ 1)
unfolding rpmsg_remove
rpmsg_remove-notified idr c d fuel a fresh run few lt =
    let once = Run-Once idr (Fresh-Once idr c fresh) run in
    let (ended, drained, empty, same) =
      drain_lem idr fuel (record d { rpdev = false; drvdata = false })
        (record { listed = once.listed; accounted = once.accounted }) few in
    (
      ended,
      empty,
      elim (drained.accounted a (omega (arith, same))) [
        | inl (_, e) ↦ absurd (cc (empty _, e))
        | inr n ↦ n
      ],
    )
