-- ===== src/Driver/Cdev/Requests/Alloc.antt =====
-- An ALLOC from the ioctl of module/src/cdev.c to the allocator of qemu-device/velocitor.c and back.
use linux_pci_driver.Common.{
  ℕ, ◌+◌, ◌*◌, ◌-◌, ◌%◌, ◌/◌, ◌^◌, ◌<◌, leb, ltb, ◌==◌, Bool, true, false, not, ◌||◌, ◌&&◌, ◌≡◌,
  refl, sym, ap, subst, ◌∙◌, arith, inr, Option, none, some, List, [], ◌++◌, drop, take, length,
  le32, le64, to_le32, to_le64, choose, word32, word64, test_bit, if◌then◌else◌, Bool-cases, inl,
}
use linux_pci_driver.Hw.{nodes, node_any, mem_size, err_inject_alloc_fail, op_alloc}
use linux_pci_driver.Device.State.{VelocitorState, Env}
use linux_pci_driver.Device.Allocator.{
  Result, ok, err, AllocReq, AllocResp, alloc_block, alloc_sized, alloc_pick_node, round_up,
  max_handles, bad_handle,
}
use linux_pci_driver.Device.Allocator.Sound.{HeapOk, alloc_block-HeapOk}
use linux_pci_driver.Device.Allocator.Blocks.{Granted, alloc_block_lem, block_bounds}
use linux_pci_driver.Device.Rpmsg.{ctrl_serve, parse_alloc_req, alloc_bytes, alloc_served, Served}
use linux_pci_driver.Driver.Idr.{Idr}
use linux_pci_driver.Driver.Ctrl.{Ctrl, Transaction, answer_len}
use linux_pci_driver.Driver.Ctrl.Send.{payload_len}
use linux_pci_driver.Driver.Cdev.{
  Kernel, IoctlHandle, alloc_payload, alloc_answer, store_handle, release_after, ioctl_alloc,
}
use linux_pci_driver.Driver.Cdev.Exchange.{
  served, answer, heard, device_after, device_after-heap, transact-lost,
}
use linux_pci_driver.Driver.Cdev.Requests.{Ready, if_true, if_false, refused, accepted}

-- What an answer of the allocator has to be to fit its reply.
abbrev Fits : Result AllocResp → Type 0
Fits (ok r) =
    (r.handle < 2 ^ 32) × (r.node < 2 ^ 32) × (r.generation < 2 ^ 32) × (r.dev_offset < 2 ^ 64)
Fits (err e) = (0 < e) × (e < 4096)

abbrev Small : Result AllocResp → Type 0
Small (ok r) = Unit {0}
Small (err e) = (0 < e) × (e < 4096)

alloc_block-Small :
    (env : Env) (req : AllocReq) (s : VelocitorState) → Small (alloc_block env req s).0
unfolding alloc_block alloc_sized
alloc_block-Small env req s =
    let P = λ (r : Result AllocResp × VelocitorState). Small r.0 in
    let small : (n : ℕ) → n < 4095 → (0 < n + 1) × (n + 1 < 4096) =
      λ n lt. (omega arith, omega (arith, lt)) in
    choose P (not (req.node == node_any) && leb nodes req.node) (small 21 (omega arith)) (
      choose P ((req.size == 0) || ltb mem_size req.size) (small 21 (omega arith)) (
        choose P (test_bit s.err_inject err_inject_alloc_fail) (small 11 (omega arith)) (
          choose P
            (ltb max_handles s.next_handle
              || not (alloc_pick_node s.heap req.node (round_up req.size)).0)
            (small 11 (omega arith)) tt)))

handle_bound :
    (env : Env) (s : VelocitorState) (h : ℕ)
    → HeapOk s.heap
    → bad_handle s.heap h ≡ false
    → (0 < h) × (h < s.heap.next_handle)
unfolding bad_handle
handle_bound env s h heap good = ground arith

Granted-Fits :
    (env : Env) (req : AllocReq) (s : VelocitorState) (r : Result AllocResp × VelocitorState)
    → Granted req s r
    → HeapOk r.1.heap
    → s.generation < 2 ^ 32
    → Small r.0
    → Fits r.0
Granted-Fits env req s (ok a, t) (_, good, offset, node, _, gen, _) heap lt small =
    let (pos, bound) = handle_bound env t a.handle heap good in
    let block = heap.block (a.handle - 1) (omega (arith, pos, bound)) in
    let (_, inside) = block_bounds t.heap a.handle heap good in
    let in_node : a.node < nodes = subst (λ n. n < nodes) (sym node) block.node_lt in
    (
      omega (arith, bound, heap.last),
      omega (arith, in_node),
      omega (arith, gen, lt),
      omega (arith, offset, inside),
    )
Granted-Fits env req s (err x, t) granted heap lt small = small

-- The words of the request and of the answer come through.
wide : (w : ℕ) (rest : List ℕ) → w < 2 ^ 64 → le64 (to_le64 w ++ rest) 0 ≡ w
wide w rest lt =
    ap (λ n. n + 2 ^ 32 * le32 (to_le64 w ++ rest) 4) (word32 (w % 2 ^ 32) (omega arith))
    ∙ ap (λ n. w % 2 ^ 32 + 2 ^ 32 * n) (word32 (w / 2 ^ 32) (omega (arith, lt)))
    ∙ word64 w lt

parse_alloc_payload :
    (req : AllocReq)
    → req.size < 2 ^ 64
    → req.dtype < 2 ^ 32
    → req.node < 2 ^ 32
    → parse_alloc_req (alloc_payload req) ≡ req
parse_alloc_payload req a b c =
    let e1 = wide req.size (to_le32 req.dtype ++ to_le32 req.node) a in
    let e2 = word32 req.dtype b in
    let e3 = word32 req.node c in λ i. record { size = e1 i; dtype = e2 i; node = e3 i }

alloc_answer_bytes :
    (r : AllocResp) → Fits (ok r) → alloc_answer (take 24 (alloc_bytes r) ++ drop 24 []) ≡ r
alloc_answer_bytes r (a, b, c, d) =
    let e1 = word32 r.handle a in
    let e2 = word32 r.node b in
    let e3 = word32 r.generation c in
    let e4 = wide r.dev_offset [] d in
    λ i. record { handle = e1 i; node = e2 i; generation = e3 i; dev_offset = e4 i }

module _ (idr : Idr) (env : Env) (src : ℕ) (arrives : Bool) (w : Kernel idr) (seq : ℕ)
    (table : idr.Table) (req : AllocReq) where
  -- The device when its part of the request is over, and whether the driver gets the reply.
  abbrev pub after : VelocitorState
  after = device_after idr env src arrives w op_alloc 16 seq (alloc_payload req) table

  abbrev pub is_heard : Bool
  is_heard = heard idr env src arrives w op_alloc 16 seq (alloc_payload req) table

alloc_served-state : (r : Result AllocResp × VelocitorState) → (alloc_served r).1 ≡ r.1
alloc_served-state (ok a, t) = refl
alloc_served-state (err e, t) = refl

module _ (idr : Idr) (entry room : Bool) (to_user : ℕ × Bool) where
  -- The allocator's answer, given to user space without a message in between.
  unfoldable pub handed_out :
      ℕ → Kernel idr → Result AllocResp → (ℕ × Option IoctlHandle) × Kernel idr
  unfolding store_handle
  handed_out size w (ok r) = store_handle idr entry room to_user size r w
  handed_out size w (err e) = ((e, none), w)

  module _ (env : Env) (src : ℕ) (arrives : Bool) (w : Kernel idr) (seq : ℕ) (table : idr.Table)
      (req : AllocReq) (ready : Ready idr w seq table) where
    abbrev use_answer : Transaction → Kernel idr → (ℕ × Option IoctlHandle) × Kernel idr
    use_answer t = store_handle idr entry room to_user req.size (alloc_answer t.answer)

    by_result :
        (r : Result AllocResp × VelocitorState)
        → answer idr env src arrives w op_alloc 16 seq (alloc_payload req) table ≡ alloc_served r
        → Fits r.0
        → is_heard idr env src arrives w seq table req ≡ true
        → (c : Ctrl idr.Table) × (ioctl_alloc idr true
              (λ b. 0)
              (served idr env src arrives 16)
              entry
              room
              to_user
              (inr req)
              w
            ≡ some (
                let out =
                  handed_out req.size
                    (record w { device = after idr env src arrives w seq table req })
                    r.0 in
                (out.0, record out.1 { ctrl = c })))
    unfolding ioctl_alloc handed_out store_handle release_after payload_len answer_len
    by_result (ok r, s) is fits yes_heard =
        let (c, u, filled, ends) =
          accepted idr env src arrives w op_alloc 16 seq (alloc_payload req) table ready
            (omega arith) refl use_answer yes_heard 24 (ap (λ (x : Served). x.0.0) is) refl
            (omega (arith, ap (λ (x : Served). length x.0.1) is)) in
        let read : alloc_answer u.answer ≡ r =
          ap alloc_answer (filled ∙ ap (λ (x : Served). take 24 x.0.1 ++ drop 24 []) is)
          ∙ alloc_answer_bytes r fits in
        (
          _,
          ends
              ∙ ap
                  (λ resp.
                    release_after idr true (λ b. 0) (served idr env src arrives 16) w.ctrl.kmalloc
                      (store_handle idr entry room to_user req.size resp (record w {
                        ctrl = c;
                        device = after idr env src arrives w seq table req;
                      })))
                  read,
        )
    by_result (err e, s) is (pos, lt) yes_heard =
        refused idr env src arrives w op_alloc 16 seq (alloc_payload req) table ready (omega arith)
          refl use_answer yes_heard e (ap (λ (x : Served). x.0.0) is) pos lt

    lost :
        is_heard idr env src arrives w seq table req ≡ false
        → ioctl_alloc idr true
            (λ b. 0)
            (served idr env src arrives 16)
            entry
            room
            to_user
            (inr req)
            w
          ≡ none
    unfolding ioctl_alloc payload_len
    lost no_heard =
        transact-lost idr env src arrives w op_alloc 16 seq (alloc_payload req) table use_answer
          ready.up ready.there ready.number ready.seq_lt (omega arith) refl no_heard

    allocates :
        req.size < 2 ^ 64
        → req.dtype < 2 ^ 32
        → req.node < 2 ^ 32
        → answer idr env src arrives w op_alloc 16 seq (alloc_payload req) table
          ≡ alloc_served (alloc_block env req w.device)
    unfolding ctrl_serve
    allocates a b c =
        ap (λ q. alloc_served (alloc_block env q w.device)) (parse_alloc_payload req a b c)

-- With the channel up, a well-formed device allocator and memory and a number for the transaction, when
-- the ALLOC request is sent, reaches `velocitor_rpmsg_recv` and nothing else happens until that has run:
-- the allocator of the device is as `alloc_block` leaves it on the caller's structure. If the device
-- sends the reply and it arrives, the ioctl comes back with what `alloc_block` answered: `store_handle`
-- enters a granted block in the handle table and gives its handle, node and generation to user space,
-- and an errno of the device is the ioctl's. If the reply is lost, the ioctl waits on.
pub ioctl_alloc-served :
    (idr : Idr) (env : Env) (src : ℕ) (arrives : Bool) (w : Kernel idr) (seq : ℕ)
    (table : idr.Table) (entry room : Bool) (to_user : ℕ × Bool) (req : AllocReq)
    → Ready idr w seq table
    → HeapOk w.device.heap
    → w.device.generation < 2 ^ 32
    → req.size < 2 ^ 64
    → req.dtype < 2 ^ 32
    → req.node < 2 ^ 32
    → ((c : Ctrl idr.Table) × (ioctl_alloc idr true
            (λ b. 0)
            (served idr env src arrives 16)
            entry
            room
            to_user
            (inr req)
            w
          ≡ (let out =
                handed_out idr entry room to_user req.size
                  (record w { device = after idr env src arrives w seq table req })
                  (alloc_block env req w.device).0 in
              if is_heard idr env src arrives w seq table req
              then some (out.0, record out.1 { ctrl = c })
              else none)))
      × ((after idr env src arrives w seq table req).heap ≡ (alloc_block env req w.device).1.heap)
ioctl_alloc-served idr env src arrives w seq table entry room to_user req ready heap lt a b c =
    let said = allocates idr entry room to_user env src arrives w seq table req ready a b c in
    let fits =
      Granted-Fits env req w.device (alloc_block env req w.device)
        (alloc_block_lem env req w.device heap) (alloc_block-HeapOk env req w.device heap) lt
        (alloc_block-Small env req w.device) in
    (
      elim (Bool-cases (is_heard idr env src arrives w seq table req)) [
        | inl yes_heard ↦
            let (d, ends) =
              by_result idr entry room to_user env src arrives w seq table req ready
                (alloc_block env req w.device) said fits yes_heard in
            (d, ends ∙ sym (if_true yes_heard _ _))
        | inr no_heard ↦ (
          w.ctrl,
          lost idr entry room to_user env src arrives w seq table req ready no_heard
              ∙ sym (if_false no_heard _ _),
        )
      ],
      device_after-heap idr env src arrives w op_alloc 16 seq (alloc_payload req) table
            (omega arith)
          ∙ ap (λ (x : Served). x.1.heap) said
          ∙ ap (λ (t : VelocitorState). t.heap) (alloc_served-state (alloc_block env req w.device)),
    )
