-- ===== src/Hw.antt =====
-- The constants of qemu-device/velocitor_hw.h, without their VEL_ prefix, and the host's errno
-- values. The injection bits are given by their positions.
pub mod Reg
pub mod Offsets
use Prim.Native.Nat.{ℕ, ◌+◌, ◌-◌, ◌*◌, ◌/◌, ◌^◌}

abbrev pub mem_size : ℕ
mem_size = 256 * 2 ^ 20

abbrev pub nodes : ℕ
nodes = 2

abbrev pub engines : ℕ
engines = 2

abbrev pub aperture_size : ℕ
aperture_size = 16 * 2 ^ 20

abbrev pub window_size : ℕ
window_size = 16 * 2 ^ 20

abbrev pub dma_bits : ℕ
dma_bits = 42

abbrev pub far_penalty : ℕ
far_penalty = 4

abbrev pub alloc_align : ℕ
alloc_align = 256

abbrev pub node_any : ℕ
node_any = 0xFFFFFFFF

abbrev pub node_size : ℕ
node_size = mem_size / nodes

abbrev pub node0_base : ℕ
node0_base = aperture_size

abbrev pub node0_end : ℕ
node0_end = node_size

abbrev pub node1_base : ℕ
node1_base = node_size

abbrev pub node1_end : ℕ
node1_end = mem_size

abbrev pub vring_num : ℕ
vring_num = 256

abbrev pub msix_vectors : ℕ
msix_vectors = 6

abbrev pub vq_ctrl_rx : ℕ
vq_ctrl_rx = 0

abbrev pub vq_ctrl_tx : ℕ
vq_ctrl_tx = 1

abbrev pub vq_engine0 : ℕ
vq_engine0 = 2

abbrev pub vq_engine1 : ℕ
vq_engine1 = 3

abbrev pub vq_count : ℕ
vq_count = 4

abbrev pub rpmsg_ns_addr : ℕ
rpmsg_ns_addr = 53

abbrev pub rpmsg_ctrl_addr : ℕ
rpmsg_ctrl_addr = 1024

abbrev pub op_info : ℕ
op_info = 1

abbrev pub op_alloc : ℕ
op_alloc = 2

abbrev pub op_free : ℕ
op_free = 3

abbrev pub op_stat : ℕ
op_stat = 4

abbrev pub data_op_copy_h2d : ℕ
data_op_copy_h2d = 1

abbrev pub data_op_copy_d2h : ℕ
data_op_copy_d2h = 2

abbrev pub cycles_copy : ℕ
cycles_copy = 100

abbrev pub ctrl_cap_node_hint : ℕ
ctrl_cap_node_hint = 1 * 2 ^ 0

abbrev pub fw_magic : ℕ
fw_magic = 0x4F465456

abbrev pub fw_abi : ℕ
fw_abi = 1

abbrev pub fw_hdr_da : ℕ
fw_hdr_da = 0

abbrev pub fw_hdr_off_magic : ℕ
fw_hdr_off_magic = 0x00

abbrev pub fw_hdr_off_abi : ℕ
fw_hdr_off_abi = 0x04

abbrev pub fw_hdr_off_trace_da : ℕ
fw_hdr_off_trace_da = 0x08

abbrev pub fw_hdr_off_trace_len : ℕ
fw_hdr_off_trace_len = 0x0C

abbrev pub trace_size : ℕ
trace_size = 64 * 2 ^ 10

abbrev pub trace_entry : ℕ
trace_entry = 128

abbrev pub trace_entries : ℕ
trace_entries = 511

abbrev pub trace_off_head : ℕ
trace_off_head = 0x00

abbrev pub trace_off_tail : ℕ
trace_off_tail = 0x04

abbrev pub trace_off_dropped : ℕ
trace_off_dropped = 0x08

abbrev pub trace_off_entry_size : ℕ
trace_off_entry_size = 0x0C

abbrev pub trace_hdr_size : ℕ
trace_hdr_size = 0x10

abbrev pub trace_level_info : ℕ
trace_level_info = 0

abbrev pub trace_level_warn : ℕ
trace_level_warn = 1

abbrev pub trace_level_error : ℕ
trace_level_error = 2

abbrev pub trace_engine_none : ℕ
trace_engine_none = 0xFFFF

abbrev pub trace_seq_none : ℕ
trace_seq_none = 0

abbrev pub irq_vec_config : ℕ
irq_vec_config = 0

abbrev pub irq_vec_error : ℕ
irq_vec_error = 5

abbrev pub irq_latched : ℕ
irq_latched = 2 ^ irq_vec_config + 2 ^ irq_vec_error

-- The coherent pool of the host.
abbrev pub host_pool_size : ℕ
host_pool_size = 64 * 2 ^ 20

abbrev pub dbg_dma_h2d : ℕ
dbg_dma_h2d = 1

abbrev pub dbg_dma_d2h : ℕ
dbg_dma_d2h = 2

abbrev pub dma_status_idle : ℕ
dma_status_idle = 0

abbrev pub dma_status_busy : ℕ
dma_status_busy = 1

abbrev pub dma_status_done : ℕ
dma_status_done = 2

abbrev pub dma_status_error : ℕ
dma_status_error = 3

abbrev pub magic : ℕ
magic = 0x4F4C4556

abbrev pub version : ℕ
version = 0 * 2 ^ 16 + 6

abbrev pub cap_fp32 : ℕ
cap_fp32 = 1 * 2 ^ 0

abbrev pub cap_bf16 : ℕ
cap_bf16 = 1 * 2 ^ 1

abbrev pub cap_transpose : ℕ
cap_transpose = 1 * 2 ^ 2

abbrev pub topology : ℕ
topology = nodes * 2 ^ 16 + engines

abbrev pub err_inject_fw_crash : ℕ
err_inject_fw_crash = 2

abbrev pub err_inject_alloc_fail : ℕ
err_inject_alloc_fail = 5

abbrev pub err_inject_win_ignore : ℕ
err_inject_win_ignore = 6

abbrev pub notifyid_none : ℕ
notifyid_none = 0xFFFFFFFF

abbrev pub fw_status_reset : ℕ
fw_status_reset = 0

abbrev pub fw_status_verified : ℕ
fw_status_verified = 1

abbrev pub fw_status_running : ℕ
fw_status_running = 2

abbrev pub fw_status_crashed : ℕ
fw_status_crashed = 3

abbrev pub err_none : ℕ
err_none = 0

abbrev pub err_bad_desc : ℕ
err_bad_desc = 1

abbrev pub err_out_of_bounds : ℕ
err_out_of_bounds = 2

abbrev pub err_bad_handle : ℕ
err_bad_handle = 3

abbrev pub err_dma_width : ℕ
err_dma_width = 4

abbrev pub err_nomem : ℕ
err_nomem = 7

abbrev pub err_stale : ℕ
err_stale = 9

abbrev pub err_fw_header : ℕ
err_fw_header = 10

abbrev pub cnt_first : ℕ
cnt_first = 0x098

abbrev pub cnt_last : ℕ
cnt_last = 0x0e4

abbrev pub cnt_count : ℕ
cnt_count = (cnt_last - cnt_first) / 4 + 1

abbrev pub blk_vq_base : ℕ
blk_vq_base = 0x100

abbrev pub blk_vq_end : ℕ
blk_vq_end = 0x12F

-- <errno.h>
abbrev pub einval : ℕ
einval = 22

abbrev pub enomem : ℕ
enomem = 12

abbrev pub eio : ℕ
eio = 5

abbrev pub enosys : ℕ
enosys = 38

abbrev pub estale : ℕ
estale = 116

abbrev pub virtio_id : ℕ
virtio_id = 0x4000

abbrev pub vring_align : ℕ
vring_align = 4096

abbrev pub fw_hdr_size : ℕ
fw_hdr_size = 0x10

abbrev pub bar2_window_off : ℕ
bar2_window_off = aperture_size

abbrev pub enodev : ℕ
enodev = 19

abbrev pub ebusy : ℕ
ebusy = 16

abbrev pub eproto : ℕ
eproto = 71

abbrev pub eremoteio : ℕ
eremoteio = 121

abbrev pub ecanceled : ℕ
ecanceled = 125

abbrev pub etimedout : ℕ
etimedout = 110

abbrev pub enotty : ℕ
enotty = 25

abbrev pub efault : ℕ
efault = 14

abbrev pub data_inflight : ℕ
data_inflight = vring_num / 2

abbrev pub emsgsize : ℕ
emsgsize = 90
