-- ===== src/Driver/Remoteproc/Walk.antt =====
-- The walk of module/src/remoteproc.c and that of qemu-device/velocitor.c over one resource table.
use linux_pci_driver.Common.{
  ℕ, zero, suc, ◌+◌, ◌*◌, ◌/◌, ◌%◌, ◌^◌, ◌≤◌, ◌<◌, ltb, leb, ◌==◌, true, not, Option, none, some,
  List, ◌≡◌, refl, arith, load, dchoose, inl, inr, Bool-cases, ==→eq,
}
use linux_pci_driver.Hw.{dma_bits}
use linux_pci_driver.Device.State.{VelocitorState, Env, Access, dma_read, add32}
use linux_pci_driver.Device.Bus.{wide, pci_read, note_access}
use linux_pci_driver.Device.Monad as Monad
use linux_pci_driver.Device.Monad.{after, after_failure}
use linux_pci_driver.Device.Rsc.{
  rsc_type_vdev, rsc_off_entries, rsc_body, vdev_off_status, vdev_off_vring, vdev_vring_stride,
  vdev_vring_notifyid, rsc_probe32, rsc_read32, rsc_fetch, rsc_in_table, rsc_address,
  rsc_scan_vdevs, scan_entries, scan_entry, scan_vrings,
}
use linux_pci_driver.Driver.State.{VelocitorVring, vrings_count}
use linux_pci_driver.Driver.Remoteproc.{
  field, Walked, assign_notifyid, walk_vrings, walk_entry, walk_entries, walk_rsc_table,
}

-- The table that the driver has cached is the one that it published: its length, and its address.
pub record OnTable (base len : ℕ) (s : VelocitorState) : Type 0 where
  pub length_is : s.rsc_len ≡ len
  pub address_is : wide s.rsc_addr_hi s.rsc_addr_lo ≡ base

-- Entry `i` of a table lies within its length, with the rings of a vdev.
pub record EntryFits (table : ℕ → ℕ) (len i : ℕ) : Type 0 where
  pub offset_fits : rsc_off_entries + 4 * i + 4 ≤ len
  pub type_fits : field table (rsc_off_entries + 4 * i) + 4 ≤ len
  pub rings_fit :
      let header = field table (rsc_off_entries + 4 * i) in
      field table header ≡ rsc_type_vdev
      → header
          + rsc_body
          + vdev_off_vring
          + vdev_vring_stride * (table (header + rsc_body + vdev_off_status + 1) % 256)
        ≤ len

-- Host memory holds the bytes of the table at its address, whenever it is asked.
abbrev pub Shared : Env → (ℕ → ℕ) → ℕ → ℕ → Type 0
Shared env table base len =
    (done : List Access) (off : ℕ)
    → off + 4 ≤ len
    → env.pci_dma_read done (base + off) 4 ≡ (true, load table off 4)

second_byte : (table : ℕ → ℕ) (off : ℕ) → field table off / 256 % 256 ≡ table (off + 1) % 256
unfolding load
second_byte table off = omega arith

after-some :
    (r : Option ℕ × VelocitorState) (q : ℕ) (f : ℕ → VelocitorState → Option ℕ × VelocitorState)
    → r.0 ≡ some q
    → after r f ≡ f q r.1
unfolding after
after-some (none, s) q f e = cc
after-some (some a, s) q f e = ground arith

module _ (env : Env) (table : ℕ → ℕ) (base len : ℕ) (near : base + len ≤ 2 ^ dma_bits)
    (short : len < 2 ^ 32) (shared : Shared env table base len) where
  probe :
      (off : ℕ) (s : VelocitorState)
      → OnTable base len s
      → off + 4 ≤ len
      → rsc_probe32 env off s ≡ (some (field table off), note_access (dma_read (base + off) 4) s)
  unfolding rsc_probe32 rsc_in_table rsc_read32 rsc_fetch pci_read
  probe off s on fits =
      let P = λ (r : Option ℕ × VelocitorState).
        r ≡ (some (field table off), note_access (dma_read (base + off) 4) s) in
      let at : rsc_address off s ≡ base + off = omega (arith, on.address_is) in
      dchoose P (leb (off + 4) s.rsc_len)
        (λ _.
          dchoose P (ltb s.rsc_len (off + 4)) (λ e. absurd (ground (arith, on.length_is)))
            (λ _.
              dchoose P (leb (2 ^ dma_bits) (rsc_address off s)) (λ e. absurd (ground (arith, at)))
                (λ _. rw (at, shared s.accesses off fits) refl)))
        (λ e. absurd (ground (arith, on.length_is)))

  -- What the device has found after a walk of the driver.
  record Matches (walked : Walked) (r : Option ℕ × VelocitorState) : Type 0 where
    next : r.0 ≡ some walked.1
    on : OnTable base len r.1
    agree : (p : ℕ) → p < walked.1 → (r.1.vq p).notifyid ≡ (walked.2 p).notifyid

  scan_vrings_lem :
      (left body j index : ℕ) (vqs : ℕ → VelocitorVring) (s : VelocitorState)
      → OnTable base len s
      → ((p : ℕ) → p < index → (s.vq p).notifyid ≡ (vqs p).notifyid)
      → body + vdev_off_vring + vdev_vring_stride * (j + left) ≤ len
      → (walk_vrings table left body j index vqs).0 ≡ true
      → Matches (walk_vrings table left body j index vqs) (scan_vrings env left body j index s)
  unfolding walk_vrings scan_vrings Monad.run assign_notifyid
  scan_vrings_lem zero body j index vqs s on agree fits ok = record {
    next = refl;
    on = on;
    agree = agree;
  }
  scan_vrings_lem (suc left) body j index vqs s on agree fits ok =
      let off = body + (vdev_off_vring + j * vdev_vring_stride + vdev_vring_notifyid) in
      let same : add32 body (vdev_off_vring + j * vdev_vring_stride + vdev_vring_notifyid) ≡ off =
        omega arith in
      elim (Bool-cases (leb vrings_count index)) [
        | inl full ↦ absurd (ground arith)
        | inr room ↦
            let below : ltb index 4 ≡ true = ground arith in
            rw (room, below, same, probe off s on (omega arith))
              (scan_vrings_lem left body (j + 1) (index + 1)
                (assign_notifyid index (field table off) vqs) _
                (record { length_is = on.length_is; address_is = on.address_is })
                (λ p lt. ground (arith, agree p)) (omega arith) (rw room at ok))
      ]

  -- With four rings assigned, a walk that succeeds assigns no more.
  full_vrings :
      (left body j index : ℕ) (vqs : ℕ → VelocitorVring)
      → vrings_count ≤ index
      → (walk_vrings table left body j index vqs).0 ≡ true
      → walk_vrings table left body j index vqs ≡ (true, index, vqs)
  unfolding walk_vrings
  full_vrings zero body j index vqs full ok = refl
  full_vrings (suc left) body j index vqs full ok = absurd (ground arith)

  full_entry :
      (i index : ℕ) (vqs : ℕ → VelocitorVring)
      → vrings_count ≤ index
      → (walk_entry table i index vqs).0 ≡ true
      → walk_entry table i index vqs ≡ (true, index, vqs)
  unfolding walk_entry
  full_entry i index vqs full ok =
      let header = field table (rsc_off_entries + 4 * i) in
      elim (Bool-cases (not (field table header == rsc_type_vdev))) [
        | inl other ↦ rw other refl
        | inr vdev ↦ rw vdev (full_vrings _ _ _ index vqs full (rw vdev at ok))
      ]

  full_entries :
      (left i index : ℕ) (vqs : ℕ → VelocitorVring)
      → vrings_count ≤ index
      → (walk_entries table left i index vqs).0 ≡ true
      → walk_entries table left i index vqs ≡ (true, index, vqs)
  unfolding walk_entries
  full_entries zero i index vqs full ok = refl
  full_entries (suc left) i index vqs full ok = elim (Bool-cases (walk_entry table i index vqs).0) [
    | inl good ↦
        let same = full_entry i index vqs full good in
        rw same (full_entries left (i + 1) index vqs full (rw same at ok))
    | inr bad ↦ absurd (ground arith)
  ]

  scan_entry_lem :
      (i index : ℕ) (vqs : ℕ → VelocitorVring) (s : VelocitorState)
      → OnTable base len s
      → ((p : ℕ) → p < index → (s.vq p).notifyid ≡ (vqs p).notifyid)
      → EntryFits table len i
      → (walk_entry table i index vqs).0 ≡ true
      → Matches (walk_entry table i index vqs) (scan_entry env i index s)
  unfolding walk_entry scan_entry Monad.run
  scan_entry_lem i index vqs s on agree fits ok =
      let at = rsc_off_entries + 4 * i in
      let header = field table at in
      let s1 = note_access (dma_read (base + at) 4) s in
      let s2 = note_access (dma_read (base + header) 4) s1 in
      let on1 : OnTable base len s1 = record {
        length_is = on.length_is;
        address_is = on.address_is;
      } in
      let on2 : OnTable base len s2 = record {
        length_is = on.length_is;
        address_is = on.address_is;
      } in
      let entered : add32 rsc_off_entries (4 * i) ≡ at = omega (arith, fits.offset_fits) in
      elim (Bool-cases (field table header == rsc_type_vdev)) [
        | inl vdev ↦
            let status = header + rsc_body + vdev_off_status in
            let inside = fits.rings_fit (==→eq _ _ vdev) in
            let body : add32 header rsc_body ≡ header + rsc_body = omega (arith, inside) in
            let packed : add32 (header + rsc_body) vdev_off_status ≡ status =
              omega (arith, inside) in
            rw
              (
                entered,
                probe at s on fits.offset_fits,
                probe header s1 on1 fits.type_fits,
                vdev,
                body,
                packed,
                probe status s2 on2 (omega (arith, inside)),
                second_byte table status,
              )
              (scan_vrings_lem (table (status + 1) % 256) (header + rsc_body) 0 index vqs
                (note_access (dma_read (base + status) 4) s2)
                (record { length_is = on.length_is; address_is = on.address_is }) agree
                (omega (arith, inside)) (rw vdev at ok))
        | inr other ↦
            rw (entered, probe at s on fits.offset_fits, probe header s1 on1 fits.type_fits, other)
              (record { next = refl; on = on2; agree = agree })
      ]

  scan_entries_lem :
      (left i index : ℕ) (vqs : ℕ → VelocitorVring) (s : VelocitorState)
      → OnTable base len s
      → ((p : ℕ) → p < index → (s.vq p).notifyid ≡ (vqs p).notifyid)
      → ((k : ℕ) → i ≤ k → k < i + left → EntryFits table len k)
      → (walk_entries table left i index vqs).0 ≡ true
      → (p : ℕ) → p < (walk_entries table left i index vqs).1
      → ((scan_entries env left i index s).1.vq p).notifyid
        ≡ ((walk_entries table left i index vqs).2 p).notifyid
  unfolding walk_entries scan_entries Monad.run
  scan_entries_lem zero i index vqs s on agree fits ok = agree
  scan_entries_lem (suc left) i index vqs s on agree fits ok =
      elim (Bool-cases (walk_entry table i index vqs).0) [
        | inl good ↦ elim (Bool-cases (ltb index 4)) [
          | inl room ↦
              let here =
                scan_entry_lem i index vqs s on agree (fits i (omega arith) (omega arith)) good in
              rw
                (
                  good,
                  room,
                  after-some (scan_entry env i index s) _
                      (λ next. scan_entries env left (i + 1) next) here.next,
                )
                (scan_entries_lem left (i + 1) (walk_entry table i index vqs).1
                  (walk_entry table i index vqs).2 (scan_entry env i index s).1 here.on here.agree
                  (λ k le lt. fits k (omega arith) (omega arith)) (rw good at ok))
          | inr full ↦
              let same = full_entry i index vqs (ground arith) good in
              rw (same, full, full_entries left (i + 1) index vqs (ground arith) (rw same at ok))
                agree
        ]
        | inr bad ↦ absurd (ground arith)
      ]

-- The driver and the device number the rings alike: when host memory holds the resource table that
-- the driver has cached, every entry of it lies within its length, and the walk of the driver
-- succeeds, then after the walk of the device each of the four queues has the notifyid that the
-- driver took for it.
pub walk_rsc_table-rsc_scan_vdevs :
    (env : Env) (table : ℕ → ℕ) (base len : ℕ) (vqs : ℕ → VelocitorVring) (s : VelocitorState)
    → base + len ≤ 2 ^ dma_bits
    → len < 2 ^ 32
    → Shared env table base len
    → OnTable base len s
    → ((i : ℕ) → i < field table 4 → EntryFits table len i)
    → (walk_rsc_table table vqs).0 ≡ true
    → (q : ℕ) → q < vrings_count
    → ((rsc_scan_vdevs env (field table 4) s).vq q).notifyid
      ≡ ((walk_rsc_table table vqs).1 q).notifyid
unfolding walk_rsc_table rsc_scan_vdevs
walk_rsc_table-rsc_scan_vdevs env table base len vqs s near short shared on fits ok q lt =
    scan_entries_lem env table base len near short shared (field table 4) 0 0 vqs _
      (record { length_is = on.length_is; address_is = on.address_is })
      (λ p none_yet. absurd (omega arith)) (λ k _ below. fits k (omega arith)) (ground arith) q
      (ground arith)
