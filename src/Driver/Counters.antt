-- ===== src/Driver/Counters.antt =====
-- The counters of module/src/counters.c, read from the registers of qemu-device/velocitor.c while the
-- device goes on: `tick k` is all that the device does before the access number `k`.
pub mod Snapshot
use linux_pci_driver.Common.{ℕ}
use linux_pci_driver.Hw.Offsets.{
  reg_cnt_reset, reg_cnt_snap, reg_cnt_db_rx, reg_cnt_notify_tx, reg_cnt_notify_coalesced,
  reg_cnt_notify_dropped, reg_cnt_desc, reg_cnt_gemm, reg_cnt_dma_rd, reg_cnt_dma_wr,
  reg_cnt_bytes_rd_lo, reg_cnt_bytes_rd_hi, reg_cnt_bytes_wr_lo, reg_cnt_bytes_wr_hi,
  reg_cnt_win_move, reg_cnt_far_access, reg_cnt_err_desc, reg_cnt_err_range, reg_cnt_stall_e0,
  reg_cnt_stall_e1, reg_cnt_cycles_e0, reg_cnt_cycles_e1,
}
use linux_pci_driver.Device.State.{VelocitorState, Env}
use linux_pci_driver.Driver.Io.{readl, writel}

-- `struct counters` of uapi/velocitor.h.
pub record Counters : Type 0 where
  pub db_rx : ℕ
  pub notify_tx : ℕ
  pub notify_coalesced : ℕ
  pub notify_dropped : ℕ
  pub desc : ℕ
  pub gemm : ℕ
  pub dma_rd : ℕ
  pub dma_wr : ℕ
  pub bytes_rd_lo : ℕ
  pub bytes_rd_hi : ℕ
  pub bytes_wr_lo : ℕ
  pub bytes_wr_hi : ℕ
  pub win_move : ℕ
  pub far_access : ℕ
  pub err_desc : ℕ
  pub err_range : ℕ
  pub stall_e0 : ℕ
  pub stall_e1 : ℕ
  pub cycles_e0 : ℕ
  pub cycles_e1 : ℕ

module _ (env : Env) (tick : ℕ → VelocitorState → VelocitorState) where
  unfoldable pub counters_reset : VelocitorState → VelocitorState
  counters_reset s = writel env 1 reg_cnt_reset (tick 0 s)

  unfoldable pub counters_read : VelocitorState → Counters × VelocitorState
  counters_read s =
      let s0 = writel env 1 reg_cnt_snap (tick 0 s) in
      let (v0, s1) = readl reg_cnt_db_rx (tick 1 s0) in
      let (v1, s2) = readl reg_cnt_notify_tx (tick 2 s1) in
      let (v2, s3) = readl reg_cnt_notify_coalesced (tick 3 s2) in
      let (v3, s4) = readl reg_cnt_notify_dropped (tick 4 s3) in
      let (v4, s5) = readl reg_cnt_desc (tick 5 s4) in
      let (v5, s6) = readl reg_cnt_gemm (tick 6 s5) in
      let (v6, s7) = readl reg_cnt_dma_rd (tick 7 s6) in
      let (v7, s8) = readl reg_cnt_dma_wr (tick 8 s7) in
      let (v8, s9) = readl reg_cnt_bytes_rd_lo (tick 9 s8) in
      let (v9, s10) = readl reg_cnt_bytes_rd_hi (tick 10 s9) in
      let (v10, s11) = readl reg_cnt_bytes_wr_lo (tick 11 s10) in
      let (v11, s12) = readl reg_cnt_bytes_wr_hi (tick 12 s11) in
      let (v12, s13) = readl reg_cnt_win_move (tick 13 s12) in
      let (v13, s14) = readl reg_cnt_far_access (tick 14 s13) in
      let (v14, s15) = readl reg_cnt_err_desc (tick 15 s14) in
      let (v15, s16) = readl reg_cnt_err_range (tick 16 s15) in
      let (v16, s17) = readl reg_cnt_stall_e0 (tick 17 s16) in
      let (v17, s18) = readl reg_cnt_stall_e1 (tick 18 s17) in
      let (v18, s19) = readl reg_cnt_cycles_e0 (tick 19 s18) in
      let (v19, s20) = readl reg_cnt_cycles_e1 (tick 20 s19) in
      (
        record {
          db_rx = v0;
          notify_tx = v1;
          notify_coalesced = v2;
          notify_dropped = v3;
          desc = v4;
          gemm = v5;
          dma_rd = v6;
          dma_wr = v7;
          bytes_rd_lo = v8;
          bytes_rd_hi = v9;
          bytes_wr_lo = v10;
          bytes_wr_hi = v11;
          win_move = v12;
          far_access = v13;
          err_desc = v14;
          err_range = v15;
          stall_e0 = v16;
          stall_e1 = v17;
          cycles_e0 = v18;
          cycles_e1 = v19;
        },
        s20,
      )
