-- ===== src/Device/Allocator/Blocks.antt =====
-- What the handles of the device allocator of qemu-device/velocitor.c stand for: what ALLOC hands
-- out, and how blocks lie in memory.
use linux_pci_driver.Common.{
  ℕ, ◌+◌, ◌-◌, ◌≤◌, ◌<◌, ltb, leb, ◌==◌, if◌then◌else◌, Bool, true, false, not, ◌&&◌, ◌||◌, ◌≡◌,
  ◌≢◌, ◌⊎◌, refl, sym, subst, ℕ_discrete, dec_lt, ==→eq, arith, choose, dchoose, test_bit, inl, inr,
}
use linux_pci_driver.Hw.{nodes, node_any, mem_size, aperture_size, err_inject_alloc_fail}
use linux_pci_driver.Device.State.{VelocitorState, VelocitorAlloc, Heap, Env}
use linux_pci_driver.Device.Allocator.{
  Result, ok, err, AllocReq, AllocResp, max_handles, node_base, node_end, alloc_pick_node, round_up,
  take_block, bad_handle, alloc_sized, alloc_block,
}
use linux_pci_driver.Device.Allocator.Sound.{HeapOk, heap-error_set}

abbrev pub block_of : Heap → ℕ → VelocitorAlloc
block_of h handle = h.alloc (handle - 1)

-- Two byte ranges have no byte in common.
abbrev pub Apart : VelocitorAlloc → VelocitorAlloc → Type 0
Apart a b = (a.offset + a.size ≤ b.offset) ⊎ (b.offset + b.size ≤ a.offset)

-- The part of `bad_handle` that names an entry of the table.
handle_lt :
    (h : Heap) (i : ℕ)
    → bad_handle h i ≡ false
    → (1 ≤ i) × (i < h.next_handle) × ((h.alloc (i - 1)).live ≢ 0)
unfolding bad_handle
handle_lt h i g = ground arith

-- The block of a live handle lies in device memory behind the fixed aperture.
pub block_bounds :
    (h : Heap) (i : ℕ)
    → HeapOk h
    → bad_handle h i ≡ false
    → (aperture_size ≤ (block_of h i).offset)
      × ((block_of h i).offset + (block_of h i).size ≤ mem_size)
unfolding node_base node_end
block_bounds h i v g =
    let (pos, lt, live) = handle_lt h i g in
    let o = v.block (i - 1) (omega arith) in
    ground (arith, o.base_le, o.end_le, o.node_lt, v.bump_le (block_of h i).node o.node_lt)

node_split :
    (a b : VelocitorAlloc)
    → node_base a.node ≤ a.offset
    → a.offset + a.size ≤ node_end a.node
    → node_base b.node ≤ b.offset
    → b.offset + b.size ≤ node_end b.node
    → a.node < nodes
    → b.node < nodes
    → a.node ≢ b.node
    → Apart a b
unfolding node_base node_end
node_split a b la ha lb hb na nb ne = ground arith

-- The blocks of two live handles have no byte in common.
pub blocks-Apart :
    (h : Heap) (i j : ℕ)
    → HeapOk h
    → bad_handle h i ≡ false
    → bad_handle h j ≡ false
    → i ≢ j
    → Apart (block_of h i) (block_of h j)
blocks-Apart h i j v gi gj ne =
    let (pi, li, _) = handle_lt h i gi in
    let (pj, lj, _) = handle_lt h j gj in
    let a = v.block (i - 1) (omega arith) in
    let b = v.block (j - 1) (omega arith) in
    let ea = v.bump_le (block_of h i).node a.node_lt in
    let eb = v.bump_le (block_of h j).node b.node_lt in
    elim (ℕ_discrete (block_of h i).node (block_of h j).node) [
      | yes e ↦ elim (dec_lt i j) [
        | yes lt ↦ inl (v.apart (i - 1) (j - 1) (omega arith) (omega arith) e)
        | no ge ↦ inr (v.apart (j - 1) (i - 1) (omega arith) (omega arith) (sym e))
      ]
      | no other ↦
          node_split (block_of h i) (block_of h j) a.base_le (omega (arith, ea, a.end_le)) b.base_le
            (omega (arith, eb, b.end_le)) a.node_lt b.node_lt other
    ]

module _ (h : Heap) (size node : ℕ) (pos : 1 ≤ h.next_handle)
    (room : h.next_handle ≤ max_handles) where
  not_yet_live : bad_handle h h.next_handle ≡ true
  unfolding bad_handle
  not_yet_live = ground arith

  now_live : bad_handle (take_block h size node) h.next_handle ≡ false
  unfolding bad_handle take_block
  now_live = ground arith

  pub others_same :
      (i : ℕ) → i ≢ h.next_handle → bad_handle (take_block h size node) i ≡ bad_handle h i
  unfolding bad_handle take_block
  others_same i ne = ground arith

  handles_after :
      (i : ℕ)
      → bad_handle (take_block h size node) i
        ≡ (if i == h.next_handle then false else bad_handle h i)
  handles_after i =
      dchoose (λ (b : Bool). bad_handle (take_block h size node) i ≡ b) (i == h.next_handle)
        (λ e.
          subst (λ (k : ℕ). bad_handle (take_block h size node) k ≡ false)
            (sym (==→eq i h.next_handle e)) now_live)
        (λ e. others_same i (ground arith))

  taken_block :
      block_of (take_block h size node) h.next_handle
      ≡ record { offset = h.node_bump node; size = size; node = node; live = 1 }
  unfolding take_block
  taken_block = ground arith

-- What ALLOC did: a new live handle for a block that is large enough, and no other handle touched;
-- or nothing to the table.
abbrev pub Granted : AllocReq → VelocitorState → Result AllocResp × VelocitorState → Type 0
Granted req s (ok a, t) =
    (bad_handle s.heap a.handle ≡ true)
    × (bad_handle t.heap a.handle ≡ false)
    × (a.dev_offset ≡ (block_of t.heap a.handle).offset)
    × (a.node ≡ (block_of t.heap a.handle).node)
    × (req.size ≤ (block_of t.heap a.handle).size)
    × (a.generation ≡ s.generation)
    × ((i : ℕ) → bad_handle t.heap i ≡ (if i == a.handle then false else bad_handle s.heap i))
Granted req s (err e, t) = t.heap ≡ s.heap

-- In a well-formed allocator, ALLOC answers with a handle that was not live before and names a live
-- block of at least the size asked for, under the current generation, and leaves every other handle
-- live or dead as it was; if it answers with an errno, the table, the bump pointers and the counts
-- are what they were.
pub alloc_block_lem :
    (env : Env) (req : AllocReq) (s : VelocitorState)
    → HeapOk s.heap
    → Granted req s (alloc_block env req s)
unfolding alloc_block alloc_sized
alloc_block_lem env req s v =
    let P = Granted req s in
    choose P (not (req.node == node_any) && leb nodes req.node) refl (
      choose P ((req.size == 0) || ltb mem_size req.size) refl (
        choose P (test_bit s.err_inject err_inject_alloc_fail) (heap-error_set env _ _ _) (
          dchoose P
            (ltb max_handles s.next_handle
              || not (alloc_pick_node s.heap req.node (round_up req.size)).0)
            (λ _. heap-error_set env _ _ _)
            (λ room.
              let le : s.next_handle ≤ max_handles = ground arith in
              let size = round_up req.size in
              let node = (alloc_pick_node s.heap req.node size).1 in
              let e = taken_block s.heap size node v.first le in
              (
                not_yet_live s.heap size node v.first le,
                now_live s.heap size node v.first le,
                rw e,
                rw e,
                rw e (omega arith),
                refl,
                handles_after s.heap size node v.first le,
              )))))
