-- ===== src/Driver/Cdev/Requests/Free.antt =====
-- A FREE from the ioctl of module/src/cdev.c to the allocator of qemu-device/velocitor.c and back.
use linux_pci_driver.Common.{
  ℕ, ◌^◌, ◌<◌, ◌==◌, if◌then◌else◌, Bool, true, ◌≡◌, ◌⊎◌, refl, sym, ap, ◌∙◌, arith, inl, inr,
  Option, none, some, word32, choose, Bool-cases,
}
use linux_pci_driver.Hw.{op_free}
use linux_pci_driver.Device.State.{VelocitorState, Env}
use linux_pci_driver.Device.Allocator.{free_block, bad_handle}
use linux_pci_driver.Device.Rpmsg.{ctrl_serve, free_served, Served, neg32}
use linux_pci_driver.Driver.Idr.{Idr}
use linux_pci_driver.Driver.Ctrl.{Ctrl, Transaction, answer_len, transaction_release}
use linux_pci_driver.Driver.Ctrl.Send.{payload_len}
use linux_pci_driver.Driver.Handles.{handles_erase}
use linux_pci_driver.Driver.Cdev.{
  Kernel, IoctlHandle, free_payload, transact, release_after, ioctl_free,
}
use linux_pci_driver.Driver.Cdev.Exchange.{
  served, answer, heard, device_after, device_after-heap, transact-lost,
}
use linux_pci_driver.Driver.Cdev.Requests.{Ready, if_true, if_false, refused, accepted}

free_block-status :
    (env : Env) (handle : ℕ) (s : VelocitorState)
    → let e = (free_block env handle s).0 in (e ≡ 0) ⊎ ((0 < e) × (e < 4096))
unfolding free_block
free_block-status env handle s =
    choose (λ (r : ℕ × VelocitorState). (r.0 ≡ 0) ⊎ ((0 < r.0) × (r.0 < 4096)))
      (bad_handle s.heap handle) (inr (omega arith, omega arith)) (inl refl)

module _ (idr : Idr) (env : Env) (src : ℕ) (arrives : Bool) (w : Kernel idr) (seq : ℕ)
    (table : idr.Table) (h : IoctlHandle) where
  -- The device when its part of the request is over, and whether the driver gets the reply.
  abbrev pub after : VelocitorState
  after = device_after idr env src arrives w op_free 8 seq (free_payload h.addr) table

  abbrev pub is_heard : Bool
  is_heard = heard idr env src arrives w op_free 8 seq (free_payload h.addr) table

  abbrev use_answer : Transaction → Kernel idr → (ℕ × Option (Unit {0})) × Kernel idr
  use_answer t w1 = ((0, none), w1)

  module _ (ready : Ready idr w seq table) (lt : h.addr < 2 ^ 32) where
    frees :
        answer idr env src arrives w op_free 8 seq (free_payload h.addr) table
        ≡ free_served (free_block env h.addr w.device)
    unfolding ctrl_serve
    frees = ap (λ a. free_served (free_block env a w.device)) (word32 h.addr lt)

    by_status :
        (r : ℕ × VelocitorState)
        → answer idr env src arrives w op_free 8 seq (free_payload h.addr) table ≡ free_served r
        → (r.0 ≡ 0) ⊎ ((0 < r.0) × (r.0 < 4096))
        → is_heard ≡ true
        → (c : Ctrl idr.Table) × (transact idr true
              (λ b. 0)
              (served idr env src arrives 8)
              op_free
              (free_payload h.addr)
              use_answer
              w
            ≡ some ((r.0, none), record w { ctrl = c; device = after }))
    unfolding release_after payload_len answer_len
    by_status (e, s) is (inr (pos, small)) yes_heard =
        refused idr env src arrives w op_free 8 seq (free_payload h.addr) table ready (omega arith)
          refl use_answer yes_heard e (ap (λ (x : Served). x.0.0) is) pos small
    by_status (e, s) is (inl good) yes_heard =
        let (c, u, filled, ends) =
          accepted idr env src arrives w op_free 8 seq (free_payload h.addr) table ready
            (omega arith) refl use_answer yes_heard 0
            (ap (λ (x : Served). x.0.0) is ∙ ap neg32 good) refl (omega arith) in
        let c1 = transaction_release idr w.ctrl.kmalloc c in
        (c1, ends ∙ ap (λ n. some ((n, none), record w { ctrl = c1; device = after })) (sym good))

    exchanged :
        (c : Ctrl idr.Table) × (transact idr true
            (λ b. 0)
            (served idr env src arrives 8)
            op_free
            (free_payload h.addr)
            use_answer
            w
          ≡ (if is_heard
              then some (
                ((free_block env h.addr w.device).0, none),
                record w { ctrl = c; device = after },
              )
              else none))
    unfolding payload_len
    exchanged = elim (Bool-cases is_heard) [
      | inl yes_heard ↦
          let (c, ends) =
            by_status (free_block env h.addr w.device) frees (free_block-status env h.addr w.device)
              yes_heard in
          (c, ends ∙ sym (if_true yes_heard _ _))
      | inr no_heard ↦ (
        w.ctrl,
        transact-lost idr env src arrives w op_free 8 seq (free_payload h.addr) table use_answer
              ready.up ready.there ready.number ready.seq_lt (omega arith) refl no_heard
            ∙ sym (if_false no_heard _ _),
      )
    ]

    after-heap : after.heap ≡ (free_block env h.addr w.device).1.heap
    after-heap =
        device_after-heap idr env src arrives w op_free 8 seq (free_payload h.addr) table
          (omega arith)
        ∙ ap (λ (x : Served). x.1.heap) frees

-- With the channel up and memory and a number for the transaction: if the handle is none of the table
-- of the current generation, FREE changes nothing and gives the table's errno. Else the request is sent,
-- and when it reaches `velocitor_rpmsg_recv` and nothing else happens until that has run, the allocator
-- of the device is as `free_block` leaves it; if the device sends the reply and it arrives, the ioctl
-- comes back with the errno or 0 of `free_block` and the handle out of the table; if the reply is lost,
-- the ioctl waits on.
pub ioctl_free-served :
    (idr : Idr) (env : Env) (src : ℕ) (arrives : Bool) (w : Kernel idr) (seq : ℕ)
    (table : idr.Table) (h : IoctlHandle)
    → Ready idr w seq table
    → h.addr < 2 ^ 32
    → ((c : Ctrl idr.Table) × (ioctl_free idr true (λ b. 0) (served idr env src arrives 8) (inr h) w
          ≡ (let erased = handles_erase h.generation h.addr w.handles in
              if erased.0 == 0
              then if is_heard idr env src arrives (record w { handles = erased.1 }) seq table h
                then some (
                  ((free_block env h.addr w.device).0, none),
                  record w {
                    ctrl = c;
                    handles = erased.1;
                    device =
                        after idr env src arrives (record w { handles = erased.1 }) seq table h;
                  },
                )
                else none
              else some ((erased.0, none), w))))
      × ((after idr env src arrives w seq table h).heap ≡ (free_block env h.addr w.device).1.heap)
unfolding ioctl_free
ioctl_free-served idr env src arrives w seq table h ready lt =
    let erased = handles_erase h.generation h.addr w.handles in
    let ready1 : Ready idr (record w { handles = erased.1 }) seq table = record {
      up = ready.up;
      there = ready.there;
      number = ready.number;
      seq_lt = ready.seq_lt;
    } in
    let (c, ends) =
      exchanged idr env src arrives (record w { handles = erased.1 }) seq table h ready1 lt in
    (
      (c, ap (λ o. if erased.0 == 0 then o else some ((erased.0, none), w)) ends),
      after-heap idr env src arrives w seq table h ready lt,
    )
