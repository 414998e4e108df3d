-- ===== src/Hw/Reg.antt =====
-- The register map of BAR0 (VEL_REG_* and VEL_BLK_* of qemu-device/velocitor_hw.h): a register for
-- each offset that the handlers of qemu-device/velocitor.c tell apart, and the offsets.
use Prim.Native.Nat.{ℕ, ◌-◌, ◌/◌}
use mathlib.Core.List.{List, [], ◌∷◌}
use mathlib.Core.Bool.{◌&&◌}
use linux_pci_driver.Common.{leb, ◌==◌, if◌then◌else◌}

-- The registers of the queue configuration window.
pub data VqRegister : Type 0 where
  vq_select : VqRegister
  vq_num_max : VqRegister
  vq_num : VqRegister
  vq_enable : VqRegister
  vq_desc_lo : VqRegister
  vq_desc_hi : VqRegister
  vq_avail_lo : VqRegister
  vq_avail_hi : VqRegister
  vq_used_lo : VqRegister
  vq_used_hi : VqRegister
  vq_msix_vector : VqRegister
  vq_reserved : VqRegister

pub data Register : Type 0 where
  magic : Register
  version : Register
  caps : Register
  scratch : Register
  mem_size : Register
  topology : Register
  dma_bits : Register
  reset : Register
  fw_status : Register
  win_base : Register
  irq_status : Register
  irq_mask : Register
  irq_ack : Register
  doorbell : Register
  fw_abi : Register
  generation : Register
  err_inject : Register
  err_inject_arg : Register
  err_code : Register
  err_info_lo : Register
  err_info_hi : Register
  err_notifyid : Register
  err_handle : Register
  err_generation : Register
  err_dropped : Register
  dbg_dma_addr_lo : Register
  dbg_dma_addr_hi : Register
  dbg_dma_dev : Register
  dbg_dma_len : Register
  dbg_dma_ctl : Register
  dbg_dma_status : Register
  cnt_reset : Register
  cnt_snap : Register
  rsc_addr_lo : Register
  rsc_addr_hi : Register
  rsc_len : Register
  rsc_valid : Register
  -- A readable counter, by its index; a register of the queue window; any other offset.
  counter : ℕ → Register
  window : VqRegister → Register
  reserved : Register

look {ℓ} : {A : Type ℓ} → ℕ → List (ℕ × A) → A → A
look o [] d = d
look o ((p, r) ∷ t) d = if o == p then r else look o t d

abbrev vq_table : List (ℕ × VqRegister)
vq_table =
    (0x100, vq_select)
    ∷ (0x104, vq_num_max)
    ∷ (0x108, vq_num)
    ∷ (0x10C, vq_enable)
    ∷ (0x110, vq_desc_lo)
    ∷ (0x114, vq_desc_hi)
    ∷ (0x118, vq_avail_lo)
    ∷ (0x11C, vq_avail_hi)
    ∷ (0x120, vq_used_lo)
    ∷ (0x124, vq_used_hi)
    ∷ (0x128, vq_msix_vector)
    ∷ []

abbrev table : List (ℕ × Register)
table =
    (0x000, magic)
    ∷ (0x004, version)
    ∷ (0x008, caps)
    ∷ (0x00C, scratch)
    ∷ (0x010, mem_size)
    ∷ (0x014, topology)
    ∷ (0x018, dma_bits)
    ∷ (0x01C, reset)
    ∷ (0x020, fw_status)
    ∷ (0x024, win_base)
    ∷ (0x028, irq_status)
    ∷ (0x02C, irq_mask)
    ∷ (0x030, irq_ack)
    ∷ (0x034, doorbell)
    ∷ (0x038, fw_abi)
    ∷ (0x03C, generation)
    ∷ (0x040, err_inject)
    ∷ (0x044, err_inject_arg)
    ∷ (0x050, err_code)
    ∷ (0x054, err_info_lo)
    ∷ (0x058, err_info_hi)
    ∷ (0x05C, err_notifyid)
    ∷ (0x060, err_handle)
    ∷ (0x064, err_generation)
    ∷ (0x068, err_dropped)
    ∷ (0x070, dbg_dma_addr_lo)
    ∷ (0x074, dbg_dma_addr_hi)
    ∷ (0x078, dbg_dma_dev)
    ∷ (0x07C, dbg_dma_len)
    ∷ (0x080, dbg_dma_ctl)
    ∷ (0x084, dbg_dma_status)
    ∷ (0x090, cnt_reset)
    ∷ (0x094, cnt_snap)
    ∷ (0x0F0, rsc_addr_lo)
    ∷ (0x0F4, rsc_addr_hi)
    ∷ (0x0F8, rsc_len)
    ∷ (0x0FC, rsc_valid)
    ∷ []

-- Which register an offset of BAR0 names.
unfoldable pub decode : ℕ → Register
unfolding look
decode o =
    if leb 0x098 o && leb o 0x0e4
    then counter ((o - 0x098) / 4)
    else if leb 0x100 o && leb o 0x12f
    then window (look o vq_table vq_reserved)
    else look o table reserved

-- The indices of the counters that the model moves (VEL_CNT_INDEX).
abbrev pub cnt_index : ℕ → ℕ
cnt_index o = (o - 0x098) / 4

abbrev pub cnt_db_rx : ℕ
cnt_db_rx = cnt_index 0x098

abbrev pub cnt_notify_tx : ℕ
cnt_notify_tx = cnt_index 0x09C

abbrev pub cnt_desc : ℕ
cnt_desc = cnt_index 0x0A8

abbrev pub cnt_dma_rd : ℕ
cnt_dma_rd = cnt_index 0x0B0

abbrev pub cnt_dma_wr : ℕ
cnt_dma_wr = cnt_index 0x0B4

abbrev pub cnt_bytes_rd_lo : ℕ
cnt_bytes_rd_lo = cnt_index 0x0B8

abbrev pub cnt_bytes_wr_lo : ℕ
cnt_bytes_wr_lo = cnt_index 0x0C0

abbrev pub cnt_win_move : ℕ
cnt_win_move = cnt_index 0x0C8

abbrev pub cnt_far_access : ℕ
cnt_far_access = cnt_index 0x0CC

abbrev pub cnt_err_range : ℕ
cnt_err_range = cnt_index 0x0D4

abbrev pub cnt_cycles_e0 : ℕ
cnt_cycles_e0 = cnt_index 0x0E0

abbrev pub cnt_cycles_e1 : ℕ
cnt_cycles_e1 = cnt_index 0x0E4
