-- ===== src/Device/Queue.antt =====
-- The split rings as qemu-device/velocitor.c reads and writes them: `velocitor_vq_host_read`,
-- `velocitor_vq_host_write`, `velocitor_vq_desc`, `velocitor_vq_pop_head`, `velocitor_vq_pop`,
-- `velocitor_vq_push` and `velocitor_vq_refresh_negotiation`.
use linux_pci_driver.Common.{
  ℕ, ◌+◌, ◌*◌, ◌%◌, ◌^◌, ltb, leb, ◌==◌, if◌then◌else◌, Bool, not, ◌||◌, Option, none, some, List,
  ◌++◌, le16, le32, le64, to_le16, to_le32,
}
use linux_pci_driver.Hw.{dma_bits, err_dma_width, err_bad_desc, irq_vec_error}
use linux_pci_driver.Hw.Reg.{cnt_dma_rd, cnt_dma_wr, cnt_bytes_rd_lo, cnt_bytes_wr_lo, cnt_desc}
use linux_pci_driver.Device.State.{VelocitorState, VelocitorQueue, Env, count, set_vq}
use linux_pci_driver.Device.Irq.{raise}
use linux_pci_driver.Device.Error.{error_qualify}
use linux_pci_driver.Device.Bus.{wide, pci_read, pci_read_mem, pci_write}
use linux_pci_driver.Device.Rsc.{rsc_read32, vdev_off_gfeatures, vdev_off_status}
use linux_pci_driver.Device.State.{add32}
use linux_pci_driver.Device.Monad.{M, ◌>>=◌, ◌>>◌, pure, stop, modify, get, when_else}

-- The fields of `struct vring_desc`.
pub record Desc : Type 0 where
  pub addr : ℕ
  pub len : ℕ
  pub flags : ℕ
  pub next : ℕ

abbrev pub desc_size : ℕ
desc_size = 16

abbrev pub parse_desc : List ℕ → Desc
parse_desc b = record { addr = le64 b 0; len = le32 b 8; flags = le16 b 12; next = le16 b 14 }

-- VRING_DESC_F_NEXT and VRING_DESC_F_WRITE, by their bits.
abbrev pub desc_f_next : ℕ
desc_f_next = 0

abbrev pub desc_f_write : ℕ
desc_f_write = 1

abbrev pub desc_base : VelocitorQueue → ℕ
desc_base v = wide v.desc_hi v.desc_lo

abbrev pub avail_base : VelocitorQueue → ℕ
avail_base v = wide v.avail_hi v.avail_lo

abbrev pub used_base : VelocitorQueue → ℕ
used_base v = wide v.used_hi v.used_lo

-- `uint64_t` addition.
abbrev pub add64 : ℕ → ℕ → ℕ
add64 a b = (a + b) % 2 ^ 64

-- The 42-bit trap on a transfer of `len` bytes: `iova + len > 1ULL << VEL_DMA_BITS`.
unfoldable pub out_of_reach : ℕ → ℕ → Bool
out_of_reach iova len = ltb (2 ^ dma_bits) (add64 iova len)

module _ (env : Env) where
  -- The report of an address that the device cannot use, by the queue it came from.
  unfoldable pub width_error : ℕ → ℕ → VelocitorState → VelocitorState
  width_error q iova s =
      raise irq_vec_error (error_qualify env err_dma_width iova (s.vq q).notifyid 0 s)

  unfoldable pub bad_desc : ℕ → ℕ → VelocitorState → VelocitorState
  bad_desc q info s =
      raise irq_vec_error (error_qualify env err_bad_desc info (s.vq q).notifyid 0 s)

  abbrev pub count_read : ℕ → VelocitorState → VelocitorState
  count_read len s = count cnt_bytes_rd_lo len (count cnt_dma_rd 1 s)

  abbrev pub count_write : ℕ → VelocitorState → VelocitorState
  count_write len s = count cnt_bytes_wr_lo len (count cnt_dma_wr 1 s)

  -- Into a local buffer.
  unfoldable pub host_read : ℕ → ℕ → ℕ → M (List ℕ)
  unfolding pci_read
  host_read q iova len s =
      let ((good, bytes), s1) = pci_read env iova len s in
      if out_of_reach iova len
      then (none, width_error q iova s)
      else if not good
      then (none, width_error q iova s1)
      else (some bytes, count_read len s1)

  -- Into device memory at `at`.
  unfoldable pub host_read_mem : ℕ → ℕ → ℕ → ℕ → M (Unit {0})
  unfolding pci_read_mem
  host_read_mem q iova at len s =
      let (good, s1) = pci_read_mem env iova at len s in
      if out_of_reach iova len
      then (none, width_error q iova s)
      else if not good
      then (none, width_error q iova s1)
      else (some tt, count_read len s1)

  unfoldable pub host_write : ℕ → ℕ → ℕ → List ℕ → M (Unit {0})
  unfolding pci_write
  host_write q iova len bytes s =
      let (good, s1) = pci_write env iova len bytes s in
      if out_of_reach iova len
      then (none, width_error q iova s)
      else if not good
      then (none, width_error q iova s1)
      else (some tt, count_write len s1)

  unfoldable pub vq_desc : ℕ → ℕ → M Desc
  vq_desc q index = do
    s ← get
    when_else (leb (s.vq q).num index) (modify (bad_desc q index) >> stop) (do
      b ← host_read q (add64 (desc_base (s.vq q)) (index * desc_size)) desc_size
      pure (parse_desc b))

  -- `s->vq[q].last_avail` moves on, and the head is counted.
  abbrev pub advance : ℕ → VelocitorState → VelocitorState
  advance q s =
      count cnt_desc 1
        (set_vq q (record (s.vq q) { last_avail = ((s.vq q).last_avail + 1) % 2 ^ 16 }) s)

  -- The head at the next slot of the available ring; `none` where nothing new is published.
  unfoldable pub next_head : ℕ → M ℕ
  next_head q = do
    s ← get
    raw ← host_read q (add64 (avail_base (s.vq q)) 2) 2
    t ← get
    when_else (le16 raw 0 == (t.vq q).last_avail % 2 ^ 16) stop (do
      slot ←
          host_read q
            (add64 (avail_base (t.vq q)) (4 + 2 * ((t.vq q).last_avail % 2 ^ 16 % (t.vq q).num))) 2
      pure (le16 slot 0))

  unfoldable pub vq_pop_head : ℕ → M ℕ
  vq_pop_head q = do head ← next_head q; modify (advance q); pure head

  -- The head with its first descriptor; nothing is taken if the descriptor cannot be read.
  unfoldable pub vq_pop : ℕ → M (ℕ × Desc)
  vq_pop q = do
    head ← next_head q
    s ← get
    when_else (leb (s.vq q).num head) (modify (bad_desc q head) >> stop) (do
      b ← host_read q (add64 (desc_base (s.vq q)) (head * desc_size)) desc_size
      modify (advance q)
      pure (head, parse_desc b))

  -- `struct vring_used_elem`, then the index, then the queue's vector.
  unfoldable pub vq_push : ℕ → ℕ → ℕ → M (Unit {0})
  vq_push q head len = do
    s ← get
    raw ← host_read q (add64 (used_base (s.vq q)) 2) 2
    t ← get
    host_write q (add64 (used_base (t.vq q)) (4 + le16 raw 0 % (t.vq q).num * 8)) 8
        (to_le32 head ++ to_le32 len)
    host_write q (add64 (used_base (t.vq q)) 2) 2 (to_le16 (le16 raw 0 + 1))
    modify (raise (t.vq q).msix_vector)

  -- `rsc_read32` into a field of the queue, which a failed read leaves.
  abbrev pub put_gfeatures : ℕ → Option ℕ × VelocitorState → VelocitorState
  put_gfeatures q (none, s) = s
  put_gfeatures q (some w, s) = set_vq q (record (s.vq q) { gfeatures = w }) s

  abbrev pub put_vstatus : ℕ → Option ℕ × VelocitorState → VelocitorState
  put_vstatus q (none, s) = s
  put_vstatus q (some w, s) = set_vq q (record (s.vq q) { vstatus = w % 256 }) s

  unfoldable pub refresh_negotiation : ℕ → VelocitorState → VelocitorState
  refresh_negotiation q s =
      let at = (s.vq q).vdev_off in
      let s1 = put_gfeatures q (rsc_read32 env (add32 at vdev_off_gfeatures) s) in
      let s2 = put_vstatus q (rsc_read32 env (add32 at vdev_off_status) s1) in
      if (s.rsc_valid == 0) || (at == 0) then s else s2
