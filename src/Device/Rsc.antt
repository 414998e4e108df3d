-- ===== src/Device/Rsc.antt =====
-- The shadow resource table of qemu-device/velocitor.c: `velocitor_rsc_read32`, the walk of
-- `velocitor_rsc_scan_vdevs` and `velocitor_rsc_publish`.
use linux_pci_driver.Common.{
  ℕ, zero, suc, ◌+◌, ◌*◌, ◌/◌, ◌%◌, ◌^◌, ltb, leb, ◌==◌, if◌then◌else◌, Bool, not, ◌||◌, none, some,
  le32,
}
use linux_pci_driver.Hw.{
  dma_bits, err_out_of_bounds, err_dma_width, err_bad_desc, notifyid_none, vq_count, irq_vec_error,
}
use linux_pci_driver.Device.State.{VelocitorState, Env, add32, set_vq}
use linux_pci_driver.Device.Irq.{raise}
use linux_pci_driver.Device.Error.{error_set}
use linux_pci_driver.Device.Bus.{wide, pci_read}
use linux_pci_driver.Device.Monad.{M, ◌>>=◌, ◌>>◌, pure, modify, on_failure, when_else}

-- The VEL_RSC_* and VEL_VDEV_* layout constants of velocitor.c.
abbrev pub rsc_hdr_size : ℕ
rsc_hdr_size = 16

abbrev pub rsc_type_vdev : ℕ
rsc_type_vdev = 3

abbrev pub rsc_off_entries : ℕ
rsc_off_entries = 16

abbrev pub rsc_body : ℕ
rsc_body = 4

abbrev pub vdev_off_gfeatures : ℕ
vdev_off_gfeatures = 12

abbrev pub vdev_off_status : ℕ
vdev_off_status = 20

abbrev pub vdev_off_vring : ℕ
vdev_off_vring = 24

abbrev pub vdev_vring_stride : ℕ
vdev_vring_stride = 20

abbrev pub vdev_vring_notifyid : ℕ
vdev_vring_notifyid = 12

unfoldable pub rsc_in_table : ℕ → VelocitorState → Bool
rsc_in_table off s = leb (off + 4) s.rsc_len

-- `base + off` is a `uint64_t`.
abbrev pub rsc_address : ℕ → VelocitorState → ℕ
rsc_address off s = (wide s.rsc_addr_hi s.rsc_addr_lo + off) % 2 ^ 64

module _ (env : Env) where
  unfoldable pub rsc_fetch : ℕ → M ℕ
  unfolding pci_read
  rsc_fetch addr s =
      let ((good, bytes), s1) = pci_read env addr 4 s in
      if good then (some (le32 bytes 0), s1) else (none, error_set env err_dma_width addr s1)

  unfoldable pub rsc_read32 : ℕ → M ℕ
  rsc_read32 off s =
      if ltb s.rsc_len (off + 4)
      then (none, error_set env err_out_of_bounds off s)
      else if leb (2 ^ dma_bits) (rsc_address off s)
      then (none, error_set env err_dma_width (rsc_address off s) s)
      else rsc_fetch (rsc_address off s) s

  -- `!rsc_in_table(...) || !rsc_read32(...)`: nothing is reported off the end of the table.
  unfoldable pub rsc_probe32 : ℕ → M ℕ
  rsc_probe32 off s = if rsc_in_table off s then rsc_read32 off s else (none, s)

  abbrev pub learn_notifyid : ℕ → ℕ → ℕ → VelocitorState → VelocitorState
  learn_notifyid q body id s = set_vq q (record (s.vq q) { notifyid = id; vdev_off = body }) s

  abbrev pub lose_notifyid : ℕ → VelocitorState → VelocitorState
  lose_notifyid q s = set_vq q (record (s.vq q) { notifyid = notifyid_none }) s

  -- The inner loop: vrings `j` on of the entry with its body at `body`, into the queues `q` on. It
  -- answers the next queue, and fails at a vring that cannot be read.
  unfoldable pub scan_vrings : ℕ → ℕ → ℕ → ℕ → M ℕ
  scan_vrings zero body j q = pure q
  scan_vrings (suc left) body j q =
      let off = add32 body (vdev_off_vring + j * vdev_vring_stride + vdev_vring_notifyid) in
      when_else (ltb q vq_count)
        (do
          id ← on_failure (rsc_probe32 off) (lose_notifyid q)
          modify (learn_notifyid q body id)
          scan_vrings left body (j + 1) (q + 1))
        (pure q)

  -- One round of the outer loop: the entry offset, its type, its vrings. Failure is a `break`.
  unfoldable pub scan_entry : ℕ → ℕ → M ℕ
  scan_entry i q = do
    entry ← rsc_probe32 (add32 rsc_off_entries (4 * i))
    type ← rsc_probe32 entry
    when_else (type == rsc_type_vdev)
        (do
          packed ← rsc_probe32 (add32 (add32 entry rsc_body) vdev_off_status)
          scan_vrings (packed / 256 % 256) (add32 entry rsc_body) 0 q)
        (pure q)

  unfoldable pub scan_entries : ℕ → ℕ → ℕ → M ℕ
  scan_entries zero i q = pure q
  scan_entries (suc left) i q =
      when_else (ltb q vq_count) (do q' ← scan_entry i q; scan_entries left (i + 1) q') (pure q)

  -- Every notifyid is forgotten before the walk.
  abbrev pub forget_notifyids : VelocitorState → VelocitorState
  forget_notifyids s = record s {
    queues = record (s.queues) {
      vq = λ q.
          if ltb q vq_count
          then record (s.vq q) { notifyid = notifyid_none; vdev_off = 0 }
          else s.vq q;
    };
  }

  unfoldable pub rsc_scan_vdevs : ℕ → VelocitorState → VelocitorState
  rsc_scan_vdevs num s = (scan_entries num 0 0 (forget_notifyids s)).1

  -- The two words that make a table one, and what becomes of it.
  unfoldable pub rsc_accept : ℕ → ℕ → VelocitorState → VelocitorState
  rsc_accept ver num s =
      if not (ver == 1) || (num == 0)
      then raise irq_vec_error (error_set env err_bad_desc ver s)
      else rsc_scan_vdevs num (record s { rsc = record (s.rsc) { rsc_valid = 1 } })

  unfoldable pub rsc_check : M (Unit {0})
  rsc_check = do
    ver ← on_failure (rsc_read32 0) (raise irq_vec_error)
    num ← on_failure (rsc_read32 4) (raise irq_vec_error)
    modify (rsc_accept ver num)

  unfoldable pub rsc_publish : ℕ → VelocitorState → VelocitorState
  rsc_publish val s =
      if val % 2 == 0
      then record s { rsc = record (s.rsc) { rsc_valid = 0 } }
      else if ltb s.rsc_len rsc_hdr_size
      then raise irq_vec_error (error_set env err_bad_desc s.rsc_len s)
      else (rsc_check s).1
