-- ===== src/Device/Data.antt =====
-- The data plane of qemu-device/velocitor.c: `velocitor_data_handle`, `velocitor_data_charge`,
-- `velocitor_data_copy` and `velocitor_engine_drain`, with the requests of velocitor_wire.h.
pub mod Confined
use linux_pci_driver.Common.{
  ℕ, zero, suc, ◌+◌, ◌-◌, ◌*◌, ◌/◌, ◌%◌, ◌^◌, ltb, leb, ◌==◌, if◌then◌else◌, Bool, true, false, not,
  ◌&&◌, ◌||◌, Option, none, some, List, [], ◌∷◌, ◌++◌, drop, length, le16, le32, le64, to_le16,
  to_le32, to_le64, test_bit, load,
}
use linux_pci_driver.Hw.{
  vq_engine0, cycles_copy, far_penalty, data_op_copy_h2d, data_op_copy_d2h, err_bad_handle,
  err_out_of_bounds, err_bad_desc, err_stale, einval, eio, enosys, estale, irq_vec_error,
  trace_level_info, trace_level_error,
}
use linux_pci_driver.Hw.Reg.{cnt_far_access, cnt_cycles_e0, cnt_cycles_e1}
use linux_pci_driver.Device.State.{VelocitorState, VelocitorAlloc, Env, data_line, count}
use linux_pci_driver.Device.Irq.{raise}
use linux_pci_driver.Device.Trace.{trace}
use linux_pci_driver.Device.Error.{error_qualify}
use linux_pci_driver.Device.Allocator.{bad_handle}
use linux_pci_driver.Device.Monad.{M, ◌>>=◌, ◌>>◌, stop, modify, when_else, lift, attempt}
use linux_pci_driver.Device.Queue.{
  Desc, desc_f_next, desc_f_write, bad_desc, host_read, host_read_mem, host_write, vq_desc,
  vq_pop_head, vq_push,
}

-- `struct vel_copy_hdr`
pub record CopyHdr : Type 0 where
  pub handle : ℕ
  pub offset : ℕ
  pub dma_addr : ℕ
  pub len : ℕ

abbrev pub parse_copy : List ℕ → CopyHdr
parse_copy b = record {
  handle = le32 b 0;
  offset = le64 b 8;
  dma_addr = le64 b 16;
  len = le64 b 24;
}

-- `struct vel_req_hdr`
pub record ReqHdr : Type 0 where
  pub seq : ℕ
  pub generation : ℕ
  pub op : ℕ

abbrev pub parse_req : List ℕ → ReqHdr
parse_req b = record { seq = le32 b 0; generation = le32 b 4; op = le16 b 8 }

-- What an operation leaves for `struct vel_resp`: its errno, the cycles and the far accesses.
pub record Outcome : Type 0 where
  pub status : ℕ
  pub cycles : ℕ
  pub far : ℕ

abbrev pub failed : ℕ → Outcome
failed e = record { status = e; cycles = 0; far = 0 }

-- `struct vel_resp`
abbrev pub resp_bytes : ℕ → Outcome → ℕ → List ℕ
resp_bytes seq o engine =
    to_le32 seq
    ++ (to_le32 ((2 ^ 32 - o.status) % 2 ^ 32)
        ++ (to_le64 o.cycles ++ (to_le32 o.far ++ to_le32 engine)))

abbrev pub req_hdr_size : ℕ
req_hdr_size = 16

abbrev pub copy_hdr_size : ℕ
copy_hdr_size = 32

abbrev pub gemm_hdr_size : ℕ
gemm_hdr_size = 80

abbrev pub resp_size : ℕ
resp_size = 24

abbrev pub queue_engine : ℕ → ℕ
queue_engine q = q - vq_engine0

-- The cost of an operation on a node, and its counters.
abbrev pub charge_cycles : ℕ → ℕ → ℕ
charge_cycles engine node = if node == engine then cycles_copy else cycles_copy * far_penalty

abbrev pub charge_far : ℕ → ℕ → ℕ
charge_far engine node = if node == engine then 0 else 1

unfoldable pub data_charge : ℕ → ℕ → VelocitorState → VelocitorState
data_charge engine node s =
    count (if engine == 0 then cnt_cycles_e0 else cnt_cycles_e1) (charge_cycles engine node)
      (if node == engine then s else count cnt_far_access 1 s)

-- `uadd64_overflow(offset, len, &end) || end > block->size`
abbrev pub outside_block : VelocitorAlloc → ℕ → ℕ → Bool
outside_block b offset len = leb (2 ^ 64) (offset + len) || ltb b.size (offset + len)

abbrev pub transfer_outcome : ℕ → ℕ → Option (Unit {0}) × VelocitorState → Outcome × VelocitorState
transfer_outcome cycles far (none, s) = (record { status = eio; cycles = cycles; far = far }, s)
transfer_outcome cycles far (some _, s) = (record { status = 0; cycles = cycles; far = far }, s)

module _ (env : Env) where
  -- The transfer of a copy that is within its block.
  unfoldable pub copy_block :
      ℕ → ℕ → CopyHdr → VelocitorAlloc → VelocitorState → Outcome × VelocitorState
  copy_block q op hdr block s =
      let engine = queue_engine q in
      let at = block.offset + hdr.offset in
      let s1 = data_charge engine block.node s in
      transfer_outcome (charge_cycles engine block.node) (charge_far engine block.node) (
        if op == data_op_copy_h2d
        then host_read_mem env q hdr.dma_addr at hdr.len s1
        else host_write env q hdr.dma_addr hdr.len (load s1.mem at hdr.len) s1)

  unfoldable pub data_copy : ℕ → ℕ → CopyHdr → VelocitorState → Outcome × VelocitorState
  data_copy q op hdr s =
      let block = s.alloc (hdr.handle - 1) in
      if bad_handle s.heap hdr.handle
      then (failed einval, error_qualify env err_bad_handle 0 (s.vq q).notifyid hdr.handle s)
      else if outside_block block hdr.offset hdr.len
      then (
        failed einval,
        error_qualify env err_out_of_bounds hdr.offset (s.vq q).notifyid hdr.handle s,
      )
      else if hdr.len == 0
      then (failed einval, s)
      else copy_block q op hdr block s

  -- The request of `len` bytes `b`: the generation first, then the switch on the operation.
  unfoldable pub data_serve : ℕ → ℕ → List ℕ → VelocitorState → Outcome × VelocitorState
  data_serve q len b s =
      let req = parse_req b in
      if not (req.generation == s.generation)
      then (failed estale, error_qualify env err_stale req.generation (s.vq q).notifyid 0 s)
      else if (req.op == data_op_copy_h2d) || (req.op == data_op_copy_d2h)
      then if ltb len (req_hdr_size + copy_hdr_size)
        then (failed einval, s)
        else data_copy q req.op (parse_copy (drop req_hdr_size b)) s
      else (failed enosys, s)

  -- A malformed descriptor is fatal, and its head goes back empty.
  abbrev pub refuse_head : ℕ → ℕ → ℕ → M (Unit {0})
  refuse_head q head info = do modify (bad_desc env q info); attempt (vq_push env q head 0)

  abbrev pub bad_request : Desc → Bool
  bad_request d =
      not (test_bit d.flags desc_f_next)
      || test_bit d.flags desc_f_write
      || ltb d.len req_hdr_size
      || ltb (req_hdr_size + gemm_hdr_size) d.len

  abbrev pub bad_response : Desc → Bool
  bad_response d = not (test_bit d.flags desc_f_write) || ltb d.len resp_size

  -- Serve, answer in the second descriptor, log, and hand the head back.
  unfoldable pub engine_answer : ℕ → ℕ → ℕ → List ℕ → Desc → M (Unit {0})
  engine_answer q head len b out = do
    o ← lift (data_serve q len b)
    let req = parse_req b
    host_write env q out.addr resp_size (resp_bytes req.seq o (queue_engine q))
    modify (
        trace env (if o.status == 0 then trace_level_info else trace_level_error) (queue_engine q)
          req.seq (data_line req.op o.status o.cycles))
    attempt (vq_push env q head resp_size)

  -- One head of an engine queue. `none` is a `return` of the drain.
  unfoldable pub engine_one : ℕ → ℕ → M (Unit {0})
  engine_one q head = do
    req ← vq_desc env q head
    when_else (bad_request req) (refuse_head q head req.len) (do
      out ← vq_desc env q req.next
      when_else (bad_response out) (refuse_head q head out.len)
          (do b ← host_read env q req.addr req.len; engine_answer q head req.len b out))

  unfoldable pub engine_drain : ℕ → ℕ → M (Unit {0})
  engine_drain zero q = stop
  engine_drain (suc fuel) q = do head ← vq_pop_head env q; engine_one q head; engine_drain fuel q
