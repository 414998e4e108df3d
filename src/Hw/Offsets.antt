-- ===== src/Hw/Offsets.antt =====
-- The offsets of the registers of BAR0 that the driver reads and writes (VEL_REG_* of
-- qemu-device/velocitor_hw.h).
use Prim.Native.Nat.{ℕ}

abbrev pub reg_magic : ℕ
reg_magic = 0x000

abbrev pub reg_version : ℕ
reg_version = 0x004

abbrev pub reg_caps : ℕ
reg_caps = 0x008

abbrev pub reg_scratch : ℕ
reg_scratch = 0x00C

abbrev pub reg_mem_size : ℕ
reg_mem_size = 0x010

abbrev pub reg_topology : ℕ
reg_topology = 0x014

abbrev pub reg_reset : ℕ
reg_reset = 0x01C

abbrev pub reg_fw_status : ℕ
reg_fw_status = 0x020

abbrev pub reg_win_base : ℕ
reg_win_base = 0x024

abbrev pub reg_irq_ack : ℕ
reg_irq_ack = 0x030

abbrev pub reg_doorbell : ℕ
reg_doorbell = 0x034

abbrev pub reg_fw_abi : ℕ
reg_fw_abi = 0x038

abbrev pub reg_generation : ℕ
reg_generation = 0x03C

abbrev pub reg_err_code : ℕ
reg_err_code = 0x050

abbrev pub reg_err_info_lo : ℕ
reg_err_info_lo = 0x054

abbrev pub reg_err_info_hi : ℕ
reg_err_info_hi = 0x058

abbrev pub reg_err_notifyid : ℕ
reg_err_notifyid = 0x05C

abbrev pub reg_err_handle : ℕ
reg_err_handle = 0x060

abbrev pub reg_err_generation : ℕ
reg_err_generation = 0x064

abbrev pub reg_err_dropped : ℕ
reg_err_dropped = 0x068

abbrev pub reg_dbg_dma_addr_lo : ℕ
reg_dbg_dma_addr_lo = 0x070

abbrev pub reg_dbg_dma_addr_hi : ℕ
reg_dbg_dma_addr_hi = 0x074

abbrev pub reg_dbg_dma_dev : ℕ
reg_dbg_dma_dev = 0x078

abbrev pub reg_dbg_dma_len : ℕ
reg_dbg_dma_len = 0x07C

abbrev pub reg_dbg_dma_ctl : ℕ
reg_dbg_dma_ctl = 0x080

abbrev pub reg_dbg_dma_status : ℕ
reg_dbg_dma_status = 0x084

abbrev pub reg_cnt_reset : ℕ
reg_cnt_reset = 0x090

abbrev pub reg_cnt_snap : ℕ
reg_cnt_snap = 0x094

abbrev pub reg_cnt_db_rx : ℕ
reg_cnt_db_rx = 0x098

abbrev pub reg_cnt_notify_tx : ℕ
reg_cnt_notify_tx = 0x09C

abbrev pub reg_cnt_notify_coalesced : ℕ
reg_cnt_notify_coalesced = 0x0A0

abbrev pub reg_cnt_notify_dropped : ℕ
reg_cnt_notify_dropped = 0x0A4

abbrev pub reg_cnt_desc : ℕ
reg_cnt_desc = 0x0A8

abbrev pub reg_cnt_gemm : ℕ
reg_cnt_gemm = 0x0AC

abbrev pub reg_cnt_dma_rd : ℕ
reg_cnt_dma_rd = 0x0B0

abbrev pub reg_cnt_dma_wr : ℕ
reg_cnt_dma_wr = 0x0B4

abbrev pub reg_cnt_bytes_rd_lo : ℕ
reg_cnt_bytes_rd_lo = 0x0B8

abbrev pub reg_cnt_bytes_rd_hi : ℕ
reg_cnt_bytes_rd_hi = 0x0BC

abbrev pub reg_cnt_bytes_wr_lo : ℕ
reg_cnt_bytes_wr_lo = 0x0C0

abbrev pub reg_cnt_bytes_wr_hi : ℕ
reg_cnt_bytes_wr_hi = 0x0C4

abbrev pub reg_cnt_win_move : ℕ
reg_cnt_win_move = 0x0C8

abbrev pub reg_cnt_far_access : ℕ
reg_cnt_far_access = 0x0CC

abbrev pub reg_cnt_err_desc : ℕ
reg_cnt_err_desc = 0x0D0

abbrev pub reg_cnt_err_range : ℕ
reg_cnt_err_range = 0x0D4

abbrev pub reg_cnt_stall_e0 : ℕ
reg_cnt_stall_e0 = 0x0D8

abbrev pub reg_cnt_stall_e1 : ℕ
reg_cnt_stall_e1 = 0x0DC

abbrev pub reg_cnt_cycles_e0 : ℕ
reg_cnt_cycles_e0 = 0x0E0

abbrev pub reg_cnt_cycles_e1 : ℕ
reg_cnt_cycles_e1 = 0x0E4

abbrev pub reg_rsc_addr_lo : ℕ
reg_rsc_addr_lo = 0x0F0

abbrev pub reg_rsc_addr_hi : ℕ
reg_rsc_addr_hi = 0x0F4

abbrev pub reg_rsc_len : ℕ
reg_rsc_len = 0x0F8

abbrev pub reg_rsc_valid : ℕ
reg_rsc_valid = 0x0FC

abbrev pub reg_vq_select : ℕ
reg_vq_select = 0x100

abbrev pub reg_vq_num : ℕ
reg_vq_num = 0x108

abbrev pub reg_vq_enable : ℕ
reg_vq_enable = 0x10C

abbrev pub reg_vq_desc_lo : ℕ
reg_vq_desc_lo = 0x110

abbrev pub reg_vq_desc_hi : ℕ
reg_vq_desc_hi = 0x114

abbrev pub reg_vq_avail_lo : ℕ
reg_vq_avail_lo = 0x118

abbrev pub reg_vq_avail_hi : ℕ
reg_vq_avail_hi = 0x11C

abbrev pub reg_vq_used_lo : ℕ
reg_vq_used_lo = 0x120

abbrev pub reg_vq_used_hi : ℕ
reg_vq_used_hi = 0x124

abbrev pub reg_vq_msix_vector : ℕ
reg_vq_msix_vector = 0x128
