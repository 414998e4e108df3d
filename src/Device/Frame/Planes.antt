-- ===== src/Device/Frame/Planes.antt =====
-- The data and the control plane of qemu-device/velocitor.c, for every relation that respects the
-- moves of a queue: `velocitor_engine_drain` and `velocitor_rpmsg_drain` for any number of rounds.
use linux_pci_driver.Common.{
  ℕ, zero, suc, ◌+◌, ◌-◌, ◌≤◌, ltb, ◌==◌, if◌then◌else◌, true, false, not, ◌||◌, Option, none, some,
  List, ◌≡◌, refl, sym, subst, store, take, drop, le16, length, length-take_le, arith, choose,
  dchoose,
}
use linux_pci_driver.Hw.{data_op_copy_h2d, data_op_copy_d2h, op_info, op_alloc, op_free, op_stat}
use linux_pci_driver.Hw.Reg.{
  cnt_dma_rd, cnt_bytes_rd_lo, cnt_far_access, cnt_cycles_e0, cnt_cycles_e1,
}
use linux_pci_driver.Device.State.{VelocitorState, Heap, Env, dma_read}
use linux_pci_driver.Device.Bus.{note_access}
use linux_pci_driver.Device.Allocator.{
  AllocReq, AllocResp, Result, ok, err, bad_handle, alloc_block, free_block,
}
use linux_pci_driver.Device.Queue.{Desc, out_of_reach, host_read_mem}
use linux_pci_driver.Device.Rpmsg.{
  parse_alloc_req, ctrl_msg_size, Served, alloc_served, ctrl_serve, rpmsg_send, rpmsg_announce,
  rpmsg_recv, refuse_buffer, drain_one, rpmsg_drain,
}
use linux_pci_driver.Device.Data.{
  CopyHdr, Outcome, parse_req, parse_copy, req_hdr_size, copy_hdr_size, data_charge, data_copy,
  copy_block, data_serve, outside_block, transfer_outcome, refuse_head, engine_answer, engine_one,
  engine_drain, queue_engine, charge_cycles,
}
use linux_pci_driver.Device.Frame.{
  IsFrame, Holds, out_of_reach_lem, width_error-R, bad_desc-R, bind-Holds, stop-Holds, get-Holds,
  modify-Holds, lift-Holds, attempt-Holds, when_else-Holds, host_read-Holds, host_write-Holds,
  vq_desc-Holds, vq_pop_head-Holds, vq_pop-Holds, vq_push-Holds,
}

-- `n` bytes at `at` lie in the block of a live handle.
pub record InBlock (h : Heap) (at n : ℕ) : Type 0 where
  pub handle : ℕ
  pub live : bad_handle h handle ≡ false
  pub low : (h.alloc (handle - 1)).offset ≤ at
  pub high : at + n ≤ (h.alloc (handle - 1)).offset + (h.alloc (handle - 1)).size

-- A relation that respects a copy into a live block, too.
abbrev pub CopiesIn : (VelocitorState → VelocitorState → Type 0) → Type 0
CopiesIn R =
    (at : ℕ) (bytes : List ℕ) (s : VelocitorState)
    → InBlock s.heap at (length bytes)
    → R s (record s { mem = store s.mem at bytes })

module _ {env : Env} {R : VelocitorState → VelocitorState → Type 0} (F : IsFrame env R)
    (copy_R : CopiesIn R) where
  open F use {refl_R, trans_R, count_R, error_R, trace_R, access_R}

  host_read_mem-R :
      (q iova at len : ℕ) (s : VelocitorState)
      → ((bytes : List ℕ) → length bytes ≤ len → InBlock s.heap at (length bytes))
      → R s (host_read_mem env q iova at len s).1
  unfolding host_read_mem
  host_read_mem-R q iova at len s inside =
      let bytes = take len (env.pci_dma_read s.accesses iova len).1 in
      let copied =
        copy_R at bytes (note_access (dma_read iova len) s)
          (inside bytes (length-take_le len (env.pci_dma_read s.accesses iova len).1)) in
      dchoose (λ (r : Option (Unit {0}) × VelocitorState). R s r.1) (out_of_reach iova len)
        (λ _. width_error-R F q iova s)
        λ near.
          let step =
            trans_R _ _ _ (access_R (dma_read iova len) s (out_of_reach_lem iova len near))
              copied in
          choose (λ (r : Option (Unit {0}) × VelocitorState). R s r.1)
            (not (env.pci_dma_read s.accesses iova len).0)
            (trans_R _ _ _ step (width_error-R F q iova _))
            (trans_R _ _ _ step
              (trans_R _ _ _ (count_R cnt_dma_rd 1 _) (count_R cnt_bytes_rd_lo len _)))

  data_charge-R : (engine node : ℕ) (s : VelocitorState) → R s (data_charge engine node s)
  unfolding data_charge
  data_charge-R engine node s =
      trans_R _ _ _
        (choose (λ (t : VelocitorState). R s t) (node == engine) (refl_R s)
          (count_R cnt_far_access 1 s))
        (count_R (if engine == 0 then cnt_cycles_e0 else cnt_cycles_e1) (charge_cycles engine node)
          _)

  transfer_outcome-R :
      (cycles far : ℕ) (s : VelocitorState) (r : Option (Unit {0}) × VelocitorState)
      → R s r.1
      → R s (transfer_outcome cycles far r).1
  transfer_outcome-R cycles far s (none, t) h = h
  transfer_outcome-R cycles far s (some _, t) h = h

  heap-data_charge :
      (engine node : ℕ) (s : VelocitorState) → (data_charge engine node s).heap ≡ s.heap
  unfolding data_charge
  heap-data_charge engine node s =
      choose (λ (t : VelocitorState). t.heap ≡ s.heap) (node == engine) refl refl

  copy_block-R :
      (q op : ℕ) (hdr : CopyHdr) (s : VelocitorState)
      → bad_handle s.heap hdr.handle ≡ false
      → outside_block (s.alloc (hdr.handle - 1)) hdr.offset hdr.len ≡ false
      → R s (copy_block env q op hdr (s.alloc (hdr.handle - 1)) s).1
  unfolding copy_block
  copy_block-R q op hdr s live within =
      let block = s.alloc (hdr.handle - 1) in
      let charged = data_charge (queue_engine q) block.node s in
      let same = sym (heap-data_charge (queue_engine q) block.node s) in
      let inside = λ (bytes : List ℕ) (short : length bytes ≤ hdr.len).
        subst (λ (h : Heap). InBlock h (block.offset + hdr.offset) (length bytes)) same
          (record { handle = hdr.handle; live = live; low = omega arith; high = ground arith }) in
      trans_R _ _ _ (data_charge-R (queue_engine q) block.node s) (
        transfer_outcome-R _ _ charged _ (
          choose (λ (r : Option (Unit {0}) × VelocitorState). R charged r.1)
            (op == data_op_copy_h2d)
            (host_read_mem-R q hdr.dma_addr (block.offset + hdr.offset) hdr.len charged inside)
            ((host_write-Holds F q hdr.dma_addr hdr.len _).apply charged)))

  data_copy-R : (q op : ℕ) (hdr : CopyHdr) (s : VelocitorState) → R s (data_copy env q op hdr s).1
  unfolding data_copy
  data_copy-R q op hdr s =
      dchoose (λ (r : Outcome × VelocitorState). R s r.1) (bad_handle s.heap hdr.handle)
        (λ _. error_R _ _ _ _ s)
        λ live.
          dchoose (λ (r : Outcome × VelocitorState). R s r.1)
            (outside_block (s.alloc (hdr.handle - 1)) hdr.offset hdr.len) (λ _. error_R _ _ _ _ s)
            λ within.
              choose (λ (r : Outcome × VelocitorState). R s r.1) (hdr.len == 0) (refl_R s)
                (copy_block-R q op hdr s live within)

  data_serve-R : (q len : ℕ) (b : List ℕ) (s : VelocitorState) → R s (data_serve env q len b s).1
  unfolding data_serve
  data_serve-R q len b s =
      let P = λ (r : Outcome × VelocitorState). R s r.1 in
      choose P (not ((parse_req b).generation == s.generation)) (error_R _ _ _ _ s) (
        choose P (((parse_req b).op == data_op_copy_h2d) || ((parse_req b).op == data_op_copy_d2h))
          (choose P (ltb len (req_hdr_size + copy_hdr_size)) (refl_R s)
            (data_copy-R q (parse_req b).op (parse_copy (drop req_hdr_size b)) s))
          (refl_R s))

  refuse_head-Holds : (q head info : ℕ) → Holds R (refuse_head env q head info)
  refuse_head-Holds q head info =
      bind-Holds F (modify-Holds F (bad_desc-R F q info))
        λ _. attempt-Holds F (vq_push-Holds F _ _ _)

  engine_answer-Holds :
      (q head len : ℕ) (b : List ℕ) (out : Desc) → Holds R (engine_answer env q head len b out)
  unfolding engine_answer
  engine_answer-Holds q head len b out = bind-Holds F (lift-Holds F _ (data_serve-R q len b)) λ o.
      bind-Holds F (host_write-Holds F _ _ _ _) λ _.
        bind-Holds F (modify-Holds F (trace_R _ _ _ _)) λ _. attempt-Holds F (vq_push-Holds F _ _ _)

  engine_one-Holds : (q head : ℕ) → Holds R (engine_one env q head)
  unfolding engine_one
  engine_one-Holds q head = bind-Holds F (vq_desc-Holds F q head) λ req.
      when_else-Holds F _ _ _ (refuse_head-Holds q head _) (
        bind-Holds F (vq_desc-Holds F q _) λ out.
          when_else-Holds F _ _ _ (refuse_head-Holds q head _)
            (bind-Holds F (host_read-Holds F _ _ _) λ b. engine_answer-Holds q head _ b out))

  pub engine_drain-Holds : (fuel q : ℕ) → Holds R (engine_drain env fuel q)
  unfolding engine_drain
  engine_drain-Holds zero q = stop-Holds F
  engine_drain-Holds (suc fuel) q =
      bind-Holds F (vq_pop_head-Holds F q)
        λ head. bind-Holds F (engine_one-Holds q head) (λ _. engine_drain-Holds fuel q)

module _ {env : Env} {R : VelocitorState → VelocitorState → Type 0} (F : IsFrame env R) where
  open F use {error_R}

  pub rpmsg_send-Holds : (src dst : ℕ) (payload : List ℕ) → Holds R (rpmsg_send env src dst payload)
  unfolding rpmsg_send
  rpmsg_send-Holds src dst payload = bind-Holds F (get-Holds F) λ s.
      when_else-Holds F _ _ _ (stop-Holds F) (
        bind-Holds F (vq_pop-Holds F _) λ item.
          when_else-Holds F _ _ _
            (bind-Holds F (get-Holds F) λ t.
              bind-Holds F (modify-Holds F (error_R _ _ _ _))
                λ _. bind-Holds F (vq_push-Holds F _ _ _) (λ _. stop-Holds F))
            (bind-Holds F (host_write-Holds F _ _ _ _) λ _.
              bind-Holds F (host_write-Holds F _ _ _ _)
                λ _. attempt-Holds F (vq_push-Holds F _ _ _)))

-- A relation that respects ALLOC, FREE and the announcement, too.
pub record ServesControl (env : Env) (R : VelocitorState → VelocitorState → Type 0) : Type 0 where
  pub alloc_R : (req : AllocReq) (s : VelocitorState) → R s (alloc_block env req s).1
  pub free_R : (handle : ℕ) (s : VelocitorState) → R s (free_block env handle s).1
  pub announce_R :
      (s : VelocitorState)
      → R s (record s { queues = record (s.queues) { rpmsg_announced = true } })

module _ {env : Env} {R : VelocitorState → VelocitorState → Type 0} (F : IsFrame env R)
    (C : ServesControl env R) where
  open F use {refl_R, trans_R, error_R, trace_R}

  pub rpmsg_announce-Holds : Holds R (rpmsg_announce env)
  unfolding rpmsg_announce
  rpmsg_announce-Holds =
      bind-Holds F (rpmsg_send-Holds F _ _ _)
        λ _. bind-Holds F (modify-Holds F C.announce_R) (λ _. modify-Holds F (trace_R _ _ _ _))

  alloc_served-R :
      (s : VelocitorState) (r : Result AllocResp × VelocitorState)
      → R s r.1
      → R s (alloc_served r).1
  alloc_served-R s (ok a, t) h = h
  alloc_served-R s (err e, t) h = h

  ctrl_serve-R :
      (op : ℕ) (req : List ℕ) (len : ℕ) (s : VelocitorState) → R s (ctrl_serve env op req len s).1
  unfolding ctrl_serve
  ctrl_serve-R op req len s =
      let P = λ (r : Served). R s r.1 in
      choose P (op == op_info) (refl_R s) (
        choose P (op == op_alloc)
          (choose P (ltb len (ctrl_msg_size + 16)) (refl_R s) (
            alloc_served-R s (alloc_block env (parse_alloc_req (drop ctrl_msg_size req)) s)
              (C.alloc_R _ s)))
          (choose P (op == op_free)
            (choose P (ltb len (ctrl_msg_size + 8)) (refl_R s) (C.free_R _ s))
            (choose P (op == op_stat) (refl_R s) (refl_R s))))

  rpmsg_recv-R :
      (src : ℕ) (req : List ℕ) (len : ℕ) (s : VelocitorState) → R s (rpmsg_recv env src req len s)
  unfolding rpmsg_recv
  rpmsg_recv-R src req len s =
      choose (λ (t : VelocitorState). R s t) (ltb len ctrl_msg_size) (refl_R s)
        (trans_R _ _ _ (ctrl_serve-R (le16 req 4) req len s)
          (trans_R _ _ _ (trace_R _ _ _ _ _) ((rpmsg_send-Holds F _ _ _).apply _)))

  refuse_buffer-Holds : (q head info : ℕ) → Holds R (refuse_buffer env q head info)
  refuse_buffer-Holds q head info = bind-Holds F (get-Holds F) λ s.
      bind-Holds F (modify-Holds F (error_R _ _ _ _)) (λ _. attempt-Holds F (vq_push-Holds F _ _ _))

  drain_one-Holds : (item : ℕ × Desc) → Holds R (drain_one env item)
  unfolding drain_one
  drain_one-Holds (head, d) = when_else-Holds F _ _ _ (refuse_buffer-Holds _ _ _) (
      bind-Holds F (host_read-Holds F _ _ _) λ b.
        when_else-Holds F _ _ _ (refuse_buffer-Holds _ _ _) (
          bind-Holds F (attempt-Holds F (vq_push-Holds F _ _ _))
            λ _. modify-Holds F (rpmsg_recv-R _ _ _)))

  pub rpmsg_drain-Holds : (fuel : ℕ) → Holds R (rpmsg_drain env fuel)
  unfolding rpmsg_drain
  rpmsg_drain-Holds zero = stop-Holds F
  rpmsg_drain-Holds (suc fuel) =
      bind-Holds F (vq_pop-Holds F _)
        λ item. bind-Holds F (drain_one-Holds item) (λ _. rpmsg_drain-Holds fuel)
