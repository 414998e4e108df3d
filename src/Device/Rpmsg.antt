-- ===== src/Device/Rpmsg.antt =====
-- The control plane of qemu-device/velocitor.c: `velocitor_rpmsg_send`, `velocitor_rpmsg_announce`,
-- `velocitor_rpmsg_recv` and `velocitor_rpmsg_drain`, with the structures they put on the wire.
pub mod Reply
use linux_pci_driver.Common.{
  ℕ, zero, suc, ◌+◌, ◌-◌, ◌%◌, ◌^◌, ltb, ◌==◌, if◌then◌else◌, true, ◌||◌, List, [], ◌∷◌, ◌++◌, drop,
  replicate, length, le16, le32, le64, to_le16, to_le32, to_le64,
}
use linux_pci_driver.Hw.{
  vq_ctrl_rx, vq_ctrl_tx, rpmsg_ns_addr, rpmsg_ctrl_addr, err_out_of_bounds, err_bad_desc,
  trace_level_info, trace_engine_none, trace_seq_none, fw_abi, cap_fp32, cap_bf16, cap_transpose,
  ctrl_cap_node_hint, nodes, engines, alloc_align, op_info, op_alloc, op_free, op_stat, einval,
  enosys,
}
use linux_pci_driver.Device.State.{VelocitorState, Env, announced_line, control_line}
use linux_pci_driver.Device.Trace.{trace}
use linux_pci_driver.Device.Error.{error_qualify}
use linux_pci_driver.Device.Allocator.{
  Result, ok, err, AllocReq, AllocResp, StatResp, alloc_block, free_block, stat_fill,
}
use linux_pci_driver.Device.Monad.{M, ◌>>=◌, ◌>>◌, stop, modify, get, when_else, attempt}
use linux_pci_driver.Device.Queue.{Desc, add64, host_read, host_write, vq_pop, vq_push}

abbrev pub rpmsg_hdr_size : ℕ
rpmsg_hdr_size = 16

abbrev pub ctrl_msg_size : ℕ
ctrl_msg_size = 16

abbrev pub rpmsg_buf_size : ℕ
rpmsg_buf_size = 512

-- `(uint32_t)-e`
abbrev pub neg32 : ℕ → ℕ
neg32 e = (2 ^ 32 - e) % 2 ^ 32

-- `struct VelocitorRpmsgHdr`
abbrev pub rpmsg_hdr : ℕ → ℕ → ℕ → List ℕ
rpmsg_hdr src dst len = to_le32 src ++ (to_le32 dst ++ (to_le32 0 ++ (to_le16 len ++ to_le16 0)))

-- `struct VelocitorNsMsg` of the announcement: "velocitor-ctrl" in 32 bytes, address and flags.
abbrev pub ns_msg : List ℕ
ns_msg =
    (b'v'
      ∷ b'e'
      ∷ b'l'
      ∷ b'o'
      ∷ b'c'
      ∷ b'i'
      ∷ b't'
      ∷ b'o'
      ∷ b'r'
      ∷ b'-'
      ∷ b'c'
      ∷ b't'
      ∷ b'r'
      ∷ b'l'
      ∷ replicate 18 0)
    ++ (to_le32 rpmsg_ctrl_addr ++ to_le32 0)

-- `struct VelocitorCtrlMsg` of a reply, which takes seq and op from the request.
abbrev pub ctrl_hdr : List ℕ → ℕ → List ℕ
ctrl_hdr req status =
    to_le32 (le32 req 0) ++ (to_le16 (le16 req 4) ++ (to_le16 0 ++ (to_le32 status ++ to_le32 0)))

abbrev pub info_bytes : VelocitorState → List ℕ
info_bytes s =
    to_le32 fw_abi
    ++ (to_le32 (cap_fp32 + cap_bf16 + cap_transpose)
        ++ (to_le32 ctrl_cap_node_hint
            ++ (to_le32 nodes
                ++ (to_le32 engines ++ (to_le32 alloc_align ++ to_le32 s.generation)))))

abbrev pub parse_alloc_req : List ℕ → AllocReq
parse_alloc_req b = record { size = le64 b 0; dtype = le32 b 8; node = le32 b 12 }

abbrev pub alloc_bytes : AllocResp → List ℕ
alloc_bytes r =
    to_le32 r.handle
    ++ (to_le32 r.node ++ (to_le32 r.generation ++ (to_le32 0 ++ to_le64 r.dev_offset)))

abbrev pub stat_bytes : StatResp → List ℕ
stat_bytes r =
    to_le64 (r.capacity 0)
    ++ (to_le64 (r.free 0)
        ++ (to_le64 (r.capacity 1)
            ++ (to_le64 (r.free 1) ++ (to_le32 r.live_handles ++ to_le32 0))))

-- The status and the payload of a reply.
abbrev pub Served : Type 0
Served = (ℕ × List ℕ) × VelocitorState

abbrev pub alloc_served : Result AllocResp × VelocitorState → Served
alloc_served (ok r, s) = ((0, alloc_bytes r), s)
alloc_served (err e, s) = ((neg32 e, []), s)

abbrev pub free_served : ℕ × VelocitorState → Served
free_served (e, s) = ((neg32 e, []), s)

module _ (env : Env) where
  unfoldable pub rpmsg_send : ℕ → ℕ → List ℕ → M (Unit {0})
  rpmsg_send src dst payload = do
    s ← get
    when_else ((s.vq vq_ctrl_rx).enable == 0) stop (do
      (head, d) ← vq_pop env vq_ctrl_rx
      when_else (ltb d.len (rpmsg_hdr_size + length payload))
          (do
            t ← get
            modify (error_qualify env err_out_of_bounds d.len (t.vq vq_ctrl_rx).notifyid 0)
            vq_push env vq_ctrl_rx head 0
            stop)
          (do
            host_write env vq_ctrl_rx d.addr rpmsg_hdr_size (rpmsg_hdr src dst (length payload))
            host_write env vq_ctrl_rx (add64 d.addr rpmsg_hdr_size) (length payload) payload
            attempt (vq_push env vq_ctrl_rx head (rpmsg_hdr_size + length payload))))

  unfoldable pub rpmsg_announce : M (Unit {0})
  rpmsg_announce = do
    rpmsg_send rpmsg_ctrl_addr rpmsg_ns_addr ns_msg
    modify (λ s. record s { queues = record (s.queues) { rpmsg_announced = true } })
    modify (trace env trace_level_info trace_engine_none trace_seq_none announced_line)

  -- The switch of `velocitor_rpmsg_recv`.
  unfoldable pub ctrl_serve : ℕ → List ℕ → ℕ → VelocitorState → Served
  ctrl_serve op req len s =
      if op == op_info
      then ((0, info_bytes s), s)
      else if op == op_alloc
      then if ltb len (ctrl_msg_size + 16)
        then ((neg32 einval, []), s)
        else alloc_served (alloc_block env (parse_alloc_req (drop ctrl_msg_size req)) s)
      else if op == op_free
      then if ltb len (ctrl_msg_size + 8)
        then ((neg32 einval, []), s)
        else free_served (free_block env (le32 req ctrl_msg_size) s)
      else if op == op_stat
      then ((0, stat_bytes (stat_fill s)), s)
      else ((neg32 enosys, []), s)

  unfoldable pub rpmsg_recv : ℕ → List ℕ → ℕ → VelocitorState → VelocitorState
  rpmsg_recv src req len s =
      let ((status, payload), s1) = ctrl_serve (le16 req 4) req len s in
      let s2 =
        trace env trace_level_info trace_engine_none (le32 req 0) (control_line (le16 req 4) src)
          s1 in
      if ltb len ctrl_msg_size
      then s
      else (rpmsg_send rpmsg_ctrl_addr src (ctrl_hdr req status ++ payload) s2).1

  -- A buffer that is refused goes back empty.
  abbrev pub refuse_buffer : ℕ → ℕ → ℕ → M (Unit {0})
  refuse_buffer q head info = do
    s ← get
    modify (error_qualify env err_bad_desc info (s.vq q).notifyid 0)
    attempt (vq_push env q head 0)

  -- One buffer of the transmit ring. `none` is the `return` of a buffer that cannot be read.
  unfoldable pub drain_one : ℕ × Desc → M (Unit {0})
  drain_one (head, d) =
      when_else (ltb d.len rpmsg_hdr_size || ltb rpmsg_buf_size d.len)
        (refuse_buffer vq_ctrl_tx head d.len)
        (do
          b ← host_read env vq_ctrl_tx d.addr d.len
          when_else (ltb d.len (rpmsg_hdr_size + le16 b 12))
              (refuse_buffer vq_ctrl_tx head (le16 b 12))
              (do
                attempt (vq_push env vq_ctrl_tx head 0)
                modify (rpmsg_recv (le32 b 0) (drop rpmsg_hdr_size b) (le16 b 12))))

  -- The `while` loop of `velocitor_rpmsg_drain`, followed for a number of rounds.
  unfoldable pub rpmsg_drain : ℕ → M (Unit {0})
  rpmsg_drain zero = stop
  rpmsg_drain (suc fuel) = do item ← vq_pop env vq_ctrl_tx; drain_one item; rpmsg_drain fuel
