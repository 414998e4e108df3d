-- ===== src/Device/Sweep.antt =====
-- When the device of qemu-device/velocitor.c looks at a queue: `velocitor_vq_sweep`,
-- `velocitor_vq_arm`, `velocitor_vq_service`, `velocitor_vq_enable` and `velocitor_doorbell`.
pub mod Routing
use linux_pci_driver.Common.{
  ℕ, zero, suc, ◌+◌, ◌-◌, ◌*◌, ◌%◌, ◌^◌, ltb, leb, ◌==◌, if◌then◌else◌, Bool, true, false, not,
  ◌&&◌, ◌||◌, Option, none, some, List, le16, bit_or, test_bit,
}
use linux_pci_driver.Hw.{
  vq_ctrl_rx, vq_ctrl_tx, vq_engine0, vq_engine1, vq_count, vring_num, msix_vectors,
  trace_level_info, trace_engine_none, trace_seq_none,
}
use linux_pci_driver.Hw.Reg.{cnt_db_rx, cnt_desc}
use linux_pci_driver.Device.State.{
  VelocitorState, VelocitorQueue, Queues, Env, swept_line, enabled_line, count, set_vq,
}
use linux_pci_driver.Device.Trace.{trace}
use linux_pci_driver.Device.Monad.{M, ◌>>=◌, ◌>>◌, pure, stop, modify, get, when_else}
use linux_pci_driver.Device.Queue.{avail_base, add64, host_read, refresh_negotiation}
use linux_pci_driver.Device.Rpmsg.{rpmsg_announce, rpmsg_drain}
use linux_pci_driver.Device.Data.{engine_drain}

-- Heads published and not yet taken: `uint16_t` subtraction.
abbrev pub pending_heads : ℕ → ℕ → ℕ
pending_heads idx last = (idx + 2 ^ 16 - last % 2 ^ 16) % 2 ^ 16

abbrev pub vq_latency_ns : ℕ
vq_latency_ns = 1000

-- `(lo | hi) == 0`
abbrev pub is_null : ℕ → ℕ → Bool
is_null lo hi = bit_or lo hi == 0

abbrev pub incomplete : VelocitorQueue → Bool
incomplete v =
    (v.num == 0)
    || ltb vring_num v.num
    || is_null v.desc_lo v.desc_hi
    || is_null v.avail_lo v.avail_hi
    || is_null v.used_lo v.used_hi
    || leb msix_vectors v.msix_vector

unfoldable pub vq_arm : ℕ → VelocitorState → VelocitorState
vq_arm q s = record s {
  queues = record (s.queues) {
    vq_sweep = bit_or s.vq_sweep (2 ^ q);
    vq_timer = some (s.clock + vq_latency_ns);
  };
}

module _ (env : Env) where
  -- The heads of a queue that has no consumer, read and counted one by one.
  unfoldable pub count_heads : ℕ → ℕ → ℕ → M (Unit {0})
  count_heads zero i q = pure tt
  count_heads (suc left) i q = do
    s ← get
    let v = s.vq q
    host_read env q (add64 (avail_base v) (4 + 2 * ((v.last_avail % 2 ^ 16 + i) % v.num % 2 ^ 16)))
        2
    modify (count cnt_desc 1)
    count_heads left (i + 1) q

  abbrev pub skip_heads : ℕ → ℕ → VelocitorState → VelocitorState
  skip_heads q n s =
      set_vq q (record (s.vq q) { last_avail = ((s.vq q).last_avail + n) % 2 ^ 16 }) s

  unfoldable pub sweep_others : ℕ → ℕ → M (Unit {0})
  sweep_others q pending = do
    s ← get
    let n = if ltb (s.vq q).num pending then (s.vq q).num else pending
    count_heads n 0 q
    modify (skip_heads q n)
    t ← get
    modify (
        trace env trace_level_info trace_engine_none trace_seq_none
          (swept_line q n (t.vq q).gfeatures (t.vq q).vstatus))

  -- What a sweep does with `pending` new heads, by queue.
  unfoldable pub sweep_pending : ℕ → ℕ → ℕ → M (Unit {0})
  sweep_pending fuel q pending = when_else (pending == 0) stop (
      when_else (q == vq_ctrl_rx)
        (do
          s ← get
          when_else (not s.rpmsg_announced && test_bit (s.vq q).gfeatures 0) (rpmsg_announce env)
              stop)
        (when_else ((q == vq_engine0) || (q == vq_engine1)) (engine_drain env fuel q)
          (sweep_others q pending)))

  unfoldable pub sweep_enabled : ℕ → ℕ → M (Unit {0})
  sweep_enabled fuel q = when_else (q == vq_ctrl_tx) (rpmsg_drain env fuel) (do
    s ← get
    raw ← host_read env q (add64 (avail_base (s.vq q)) 2) 2
    t ← get
    sweep_pending fuel q (pending_heads (le16 raw 0) (t.vq q).last_avail))

  -- `fuel` bounds the rounds that a drain loop is followed for.
  unfoldable pub vq_sweep : ℕ → ℕ → VelocitorState → VelocitorState
  vq_sweep fuel q s =
      if (s.vq q).enable == 0 then s else (sweep_enabled fuel q (refresh_negotiation env q s)).1

  -- The `k` queues from `q` on, those that `pending` names.
  unfoldable pub service_from : ℕ → ℕ → ℕ → ℕ → VelocitorState → VelocitorState
  service_from fuel zero q pending s = s
  service_from fuel (suc k) q pending s =
      service_from fuel k (q + 1) pending (if test_bit pending q then vq_sweep fuel q s else s)

  unfoldable pub vq_service : ℕ → VelocitorState → VelocitorState
  unfolding service_from
  vq_service fuel s =
      service_from fuel vq_count 0 s.vq_sweep
        (record s { queues = record (s.queues) { vq_sweep = 0 } })

  unfoldable pub vq_enable : ℕ → ℕ → VelocitorState → VelocitorState
  vq_enable q val s =
      let v = s.vq q in
      let line = enabled_line q v.num v.notifyid v.msix_vector in
      if val % 2 == 0
      then set_vq q (record v { enable = 0; last_avail = 0 }) s
      else if not (v.enable == 0)
      then s
      else if incomplete v
      then s
      else vq_arm q (
          trace env trace_level_info trace_engine_none trace_seq_none line
            (set_vq q (record v { enable = 1 }) s))

-- The first of the `k` queues from `q` on that the notifyid names decides.
unfoldable pub ring_from : ℕ → ℕ → ℕ → VelocitorState → VelocitorState
ring_from zero q notifyid s = s
ring_from (suc k) q notifyid s =
    let rest = ring_from k (q + 1) notifyid s in
    if not ((s.vq q).notifyid == notifyid)
    then rest
    else if (s.vq q).enable == 0
    then s
    else vq_arm q s

unfoldable pub doorbell : ℕ → VelocitorState → VelocitorState
unfolding ring_from
doorbell notifyid s = ring_from vq_count 0 notifyid (count cnt_db_rx 1 s)
