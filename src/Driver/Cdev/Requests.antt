-- ===== src/Driver/Cdev/Requests.antt =====
-- The ioctls of module/src/cdev.c that the device of qemu-device/velocitor.c serves: from the
-- structure that user space passes to the allocator and back.
pub mod Alloc
pub mod Free
use linux_pci_driver.Common.{
  ℕ, ◌+◌, ◌-◌, ◌^◌, ◌≤◌, ◌<◌, leb, ltb, ◌==◌, if◌then◌else◌, Bool, true, false, not, ◌≡◌, ◌≢◌, refl,
  sym, ap, ◌∙◌, arith, inl, inr, Option, none, some, List, [], ◌++◌, drop, take, length, word16,
  le16,
}
use linux_pci_driver.Device.State.{VelocitorState, Env}
use linux_pci_driver.Device.Rpmsg.{ctrl_hdr, neg32}
use linux_pci_driver.Driver.Idr.{Idr}
use linux_pci_driver.Driver.Ctrl.{Ctrl, Transaction, take_reply, answer_len, transaction_release}
use linux_pci_driver.Driver.Ctrl.Send.{payload_len}
use linux_pci_driver.Driver.Cdev.{World, Kernel, Outcome, release_after, transact}
use linux_pci_driver.Driver.Cdev.Exchange.Reply.{reply-error, reply-good}
use linux_pci_driver.Driver.Cdev.Exchange.{
  served, asked, request, answer, woken, heard, device_after, transact-served,
}

pub if_true {ℓ} : {A : Type ℓ} {b : Bool} → b ≡ true → (x y : A) → (if b then x else y) ≡ x
if_true e x y = ap (λ (b : Bool). if b then x else y) e

pub if_false {ℓ} : {A : Type ℓ} {b : Bool} → b ≡ false → (x y : A) → (if b then x else y) ≡ y
if_false e x y = ap (λ (b : Bool). if b then x else y) e

-- The channel is up, and there is a number for one more transaction.
pub record Ready (idr : Idr) (w : Kernel idr) (seq : ℕ) (table : idr.Table) : Type 0 where
  pub up : w.ctrl.rpdev ≡ true
  pub there : w.ctrl.drvdata ≡ true
  pub number : idr.idr_alloc_cyclic w.ctrl.inflight_reqs w.ctrl.kmalloc ≡ inr (seq, table)
  pub seq_lt : seq < 2 ^ 32

module _ (idr : Idr) (env : Env) (src : ℕ) (arrives : Bool) (w : Kernel idr) (op len seq : ℕ)
    (payload : List ℕ) (table : idr.Table) (ready : Ready idr w seq table) (small_op : op < 2 ^ 16)
    (known : payload_len op ≡ some len) {A : Type 0}
    (use_answer : Transaction → Kernel idr → (ℕ × Option A) × Kernel idr)
    (is_heard : heard idr env src arrives w op len seq payload table ≡ true) where
  abbrev after : Ctrl idr.Table → Kernel idr
  after c = record w {
    ctrl = c;
    device = device_after idr env src arrives w op len seq payload table;
  }

  abbrev got : (ℕ × List ℕ) × VelocitorState
  got = answer idr env src arrives w op len seq payload table

  abbrev sent : List ℕ
  sent = request idr env src arrives w op len seq payload table

  abbrev then_use : Transaction → Kernel idr → ℕ → Outcome idr A
  then_use u w1 status =
      release_after idr true (λ b. 0) (served idr env src arrives len) w.ctrl.kmalloc
        (if status == 0 then use_answer u w1 else ((status, none), w1))

  same_op : le16 sent 4 ≡ op
  same_op = word16 op small_op

  -- A refused request ends with the device's errno; the control plane and the device are changed.
  pub refused :
      (e : ℕ)
      → got.0.0 ≡ neg32 e
      → 0 < e
      → e < 4096
      → (c : Ctrl idr.Table) × (transact idr true
            (λ b. 0)
            (served idr env src arrives len)
            op
            payload
            use_answer
            w
          ≡ some ((e, none), after c))
  unfolding release_after
  refused e is pos lt =
      let t = asked idr env src arrives w op len seq payload table in
      let (c, u, _, _, ends) =
        transact-served idr env src arrives w op len seq payload table use_answer ready.up
          ready.there ready.number ready.seq_lt small_op known is_heard in
      let status : (woken idr env src arrives w op len seq payload table).status ≡ e =
        ap (λ st. (take_reply (ctrl_hdr sent st ++ got.0.1) t).status) is
        ∙ reply-error sent t same_op small_op got.0.1 e pos lt in
      let bad : (e == 0) ≡ false = ground arith in
      (
        transaction_release idr w.ctrl.kmalloc c,
        ends
            ∙ ap (then_use u (after c)) status
            ∙ ap
                (λ (b : Bool).
                  release_after idr true (λ b. 0) (served idr env src arrives len) w.ctrl.kmalloc
                    (if b then use_answer u (after c) else ((e, none), after c)))
                bad,
      )

  -- A request that is accepted, with all of its answer, ends with what the caller makes of it.
  pub accepted :
      (n : ℕ)
      → got.0.0 ≡ 0
      → answer_len op ≡ some n
      → n ≤ length got.0.1
      → (c : Ctrl idr.Table) × (u : Transaction) × (u.answer ≡ take n got.0.1 ++ drop n [])
        × (transact idr true (λ b. 0) (served idr env src arrives len) op payload use_answer w
            ≡ release_after idr true
                (λ b. 0)
                (served idr env src arrives len)
                w.ctrl.kmalloc
                (use_answer u (after c)))
  accepted n is answers long =
      let t = asked idr env src arrives w op len seq payload table in
      let (c, u, _, filled, ends) =
        transact-served idr env src arrives w op len seq payload table use_answer ready.up
          ready.there ready.number ready.seq_lt small_op known is_heard in
      let taken =
        ap (λ st. take_reply (ctrl_hdr sent st ++ got.0.1) t) is
        ∙ reply-good sent t same_op small_op got.0.1 n answers long in
      (
        c,
        u,
        filled ∙ ap (λ (t : Transaction). t.answer) taken,
        ends ∙ ap (λ (t : Transaction). then_use u (after c) t.status) taken,
      )
