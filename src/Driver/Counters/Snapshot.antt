-- ===== src/Driver/Counters/Snapshot.antt =====
-- That the counters of module/src/counters.c are those of one moment.
use linux_pci_driver.Common.{ℕ, zero, suc, ◌≡◌, ap, ◌∙◌}
use linux_pci_driver.Hw.Offsets.{reg_cnt_snap}
use linux_pci_driver.Device.State.{VelocitorState, Env}
use linux_pci_driver.Device.Bar0.{
  bar0_read, bar0_write, reg_read, reg_write, access_ok, snap_counters,
}
use linux_pci_driver.Hw.Reg.{decode}
use linux_pci_driver.Driver.Io.{writel}
use linux_pci_driver.Driver.Counters.{Counters, counters_read}

-- The counters of the device by their index, in the order of VEL_CNT_INDEX.
abbrev pub by_index : (ℕ → ℕ) → Counters
by_index c = record {
  db_rx = c 0;
  notify_tx = c 1;
  notify_coalesced = c 2;
  notify_dropped = c 3;
  desc = c 4;
  gemm = c 5;
  dma_rd = c 6;
  dma_wr = c 7;
  bytes_rd_lo = c 8;
  bytes_rd_hi = c 9;
  bytes_wr_lo = c 10;
  bytes_wr_hi = c 11;
  win_move = c 12;
  far_access = c 13;
  err_desc = c 14;
  err_range = c 15;
  stall_e0 = c 16;
  stall_e1 = c 17;
  cycles_e0 = c 18;
  cycles_e1 = c 19;
}

-- The device before the read number `k`, when only it has changed something since the snapshot.
before : (ℕ → VelocitorState → VelocitorState) → VelocitorState → ℕ → VelocitorState
before tick s zero = tick 1 s
before tick s (suc k) = tick (suc (suc k)) (before tick s k)

before-snap :
    (tick : ℕ → VelocitorState → VelocitorState) (s : VelocitorState)
    → ((k : ℕ) (t : VelocitorState) → (tick k t).cnt_snap ≡ t.cnt_snap)
    → (k : ℕ) → (before tick s k).cnt_snap ≡ s.cnt_snap
unfolding before
before-snap tick s keeps zero = keeps 1 s
before-snap tick s keeps (suc k) = keeps (suc (suc k)) _ ∙ before-snap tick s keeps k

-- The counters are those of one moment: whatever the device does between the accesses of
-- `velocitor_counters_read`, as long as it leaves the frozen copies alone, each field of the result is
-- the counter of its index when CNT_SNAP was written.
pub counters_read_lem :
    (env : Env) (tick : ℕ → VelocitorState → VelocitorState) (s : VelocitorState)
    → ((k : ℕ) (t : VelocitorState) → (tick k t).cnt_snap ≡ t.cnt_snap)
    → (counters_read env tick s).0 ≡ by_index (tick 0 s).cnt
unfolding counters_read bar0_read reg_read bar0_write reg_write access_ok decode snap_counters
    before
counters_read_lem env tick s keeps =
    let s0 = writel env 1 reg_cnt_snap (tick 0 s) in
    ap by_index (λ i k. before-snap tick s0 keeps k i k)
