-- ===== src/Device/Allocator/Sound.antt =====
-- The invariant of the device allocator of qemu-device/velocitor.c, kept by ALLOC and FREE.
use linux_pci_driver.Common.{
  ℕ, zero, suc, ◌+◌, ◌-◌, ◌%◌, ◌^◌, ◌≤◌, ◌<◌, ltb, leb, ◌==◌, if◌then◌else◌, true, not, ◌&&◌, ◌||◌,
  ◌≡◌, ◌≢◌, ◌⊎◌, refl, arith, update, choose, dchoose, test_bit,
}
use linux_pci_driver.Hw.{nodes, node_any, mem_size, err_inject_alloc_fail}
use linux_pci_driver.Device.Error.{error_qualify, error_set}
use linux_pci_driver.Device.Moves.{error_any}
use linux_pci_driver.Device.State.{VelocitorState, VelocitorAlloc, Heap, Env}
use linux_pci_driver.Device.Allocator.{
  Result, AllocReq, AllocResp, max_handles, node_base, node_end, node_free, alloc_reset, pick_any,
  alloc_pick_node, round_up, take_block, bad_handle, alloc_sized, alloc_block, free_block,
}

-- The live entries among the first `n` of the table.
abbrev pub live_count : (ℕ → VelocitorAlloc) → ℕ → ℕ
live_count f zero = 0
live_count f (suc n) = (if (f n).live == 0 then 0 else 1) + live_count f n

-- A block lies in its node, below what the node has handed out.
pub record BlockOk (h : Heap) (b : VelocitorAlloc) : Type 0 where
  pub node_lt : b.node < nodes
  pub base_le : node_base b.node ≤ b.offset
  pub end_le : b.offset + b.size ≤ h.node_bump b.node
  pub grown : 0 < b.size
  pub even : b.offset % 256 ≡ 0

pub record HeapOk (h : Heap) : Type 0 where
  pub first : 1 ≤ h.next_handle
  pub last : h.next_handle ≤ max_handles + 1
  pub base_le : (n : ℕ) → n < nodes → node_base n ≤ h.node_bump n
  pub bump_le : (n : ℕ) → n < nodes → h.node_bump n ≤ node_end n
  pub aligned : (n : ℕ) → n < nodes → h.node_bump n % 256 ≡ 0
  pub block : (i : ℕ) → i + 1 < h.next_handle → BlockOk h (h.alloc i)
  pub apart :
      (i j : ℕ)
      → i < j
      → j + 1 < h.next_handle
      → (h.alloc i).node ≡ (h.alloc j).node
      → (h.alloc i).offset + (h.alloc i).size ≤ (h.alloc j).offset
  pub fresh : (i : ℕ) → h.next_handle ≤ i + 1 → (h.alloc i).live ≡ 0
  pub counted : h.live_handles ≡ live_count h.alloc (h.next_handle - 1)

live_count_le : (f : ℕ → VelocitorAlloc) (n : ℕ) → live_count f n ≤ n
live_count_le f zero = omega arith
live_count_le f (suc n) = ground (arith, live_count_le f n)

live_count-update_ge :
    (f : ℕ → VelocitorAlloc) (k : ℕ) (b : VelocitorAlloc) (n : ℕ)
    → n ≤ k
    → live_count (update f k b) n ≡ live_count f n
live_count-update_ge f k b zero h = refl
live_count-update_ge f k b (suc n) h = ground (arith, live_count-update_ge f k b n)

live_count-update_lt :
    (f : ℕ → VelocitorAlloc) (k : ℕ) (b : VelocitorAlloc) (n : ℕ)
    → k < n
    → live_count (update f k b) n + (if (f k).live == 0 then 0 else 1)
      ≡ live_count f n + (if b.live == 0 then 0 else 1)
live_count-update_lt f k b zero h = absurd (omega arith)
live_count-update_lt f k b (suc n) h =
    ground (arith, live_count-update_lt f k b n, live_count-update_ge f k b n)

node_end_le : (n : ℕ) → node_end n ≤ mem_size
unfolding node_end
node_end_le n = ground arith

pub alloc_reset-HeapOk : (h : Heap) → HeapOk (alloc_reset h)
unfolding alloc_reset node_base node_end
alloc_reset-HeapOk h = record {
  first = omega arith;
  last = omega arith;
  base_le = λ n lt. ground arith;
  bump_le = λ n lt. ground arith;
  aligned = λ n lt. ground arith;
  block = λ i lt. absurd (omega arith);
  apart = λ i j lt last e. absurd (omega arith);
  fresh = λ i le. refl;
  counted = refl;
}

-- A block that fits, taken from its node.
module _ (h : Heap) (ok_h : HeapOk h) (size node : ℕ) (lt : node < nodes)
    (fits : size ≤ node_free h node) (pos : 0 < size) (even : size % 256 ≡ 0)
    (room : h.next_handle ≤ max_handles) where
  room_left : h.node_bump node + size ≤ node_end node
  unfolding node_free
  room_left = omega (arith, ok_h.bump_le node lt, node_end_le node)

  old-BlockOk : (b : VelocitorAlloc) → BlockOk h b → BlockOk (take_block h size node) b
  unfolding take_block
  old-BlockOk b o = record {
    node_lt = o.node_lt;
    base_le = o.base_le;
    end_le = ground (arith, o.end_le, room_left, node_end_le node);
    grown = o.grown;
    even = o.even;
  }

  new-BlockOk :
      BlockOk
        (take_block h size node)
        (record { offset = h.node_bump node; size = size; node = node; live = 1 })
  unfolding take_block
  new-BlockOk = record {
    node_lt = lt;
    base_le = ok_h.base_le node lt;
    end_le = ground (arith, room_left, node_end_le node);
    grown = pos;
    even = ok_h.aligned node lt;
  }

  take_block-HeapOk : HeapOk (take_block h size node)
  unfolding take_block
  take_block-HeapOk = record {
    first = omega (arith, ok_h.first);
    last = omega (arith, ok_h.last);
    base_le = λ n l. ground (arith, ok_h.base_le n l, room_left, node_end_le node);
    bump_le = λ n l. ground (arith, ok_h.bump_le n l, room_left, node_end_le node);
    aligned = λ n l. ground (arith, ok_h.aligned n l, room_left, node_end_le node);
    block = λ i l.
        dchoose (λ (b : VelocitorAlloc). BlockOk (take_block h size node) b)
          (i == h.next_handle - 1) (λ _. new-BlockOk)
          (λ e. old-BlockOk (h.alloc i) (ok_h.block i (ground (arith, ok_h.first))));
    apart = λ i j l last e. ground (arith, ok_h.apart i j l, ok_h.block i, ok_h.first);
    fresh = λ i le. ground (arith, ok_h.fresh i, ok_h.first, ok_h.last);
    counted =
        let k = h.next_handle - 1 in
        let e : (h.next_handle + 1) % 2 ^ 32 - 1 ≡ suc k = omega (arith, ok_h.first) in
        rw e (
          ground (
            arith,
            ok_h.counted,
            live_count_le h.alloc k,
            live_count-update_ge h.alloc k
                (record { offset = h.node_bump node; size = size; node = node; live = 1 }) k
                (omega arith),
          ));
  }

pick_any_lem :
    (k n : ℕ) (h : Heap) (size : ℕ)
    → (pick_any k n h size).0 ≡ true
    → ((pick_any k n h size).1 < n + k) × (size ≤ node_free h (pick_any k n h size).1)
unfolding pick_any
pick_any_lem zero n h size e = absurd (ground arith)
pick_any_lem (suc k) n h size e = ground (arith, pick_any_lem k (n + 1) h size)

alloc_pick_node_lem :
    (h : Heap) (want size : ℕ)
    → (want ≡ node_any) ⊎ (want < nodes)
    → (alloc_pick_node h want size).0 ≡ true
    → ((alloc_pick_node h want size).1 < nodes)
      × (size ≤ node_free h (alloc_pick_node h want size).1)
unfolding alloc_pick_node
alloc_pick_node_lem h want size w e = ground (arith, pick_any_lem 2 0 h size)

module _ (env : Env) where
  pub heap-error_set :
      (code info : ℕ) (s : VelocitorState) → (error_set env code info s).heap ≡ s.heap
  unfolding error_set
  heap-error_set code info s =
      error_any env (λ (t : VelocitorState). t.heap ≡ s.heap) _ _ _ _ s (λ e mem. refl)

  pub heap-error_qualify :
      (code info id handle : ℕ) (s : VelocitorState)
      → (error_qualify env code info id handle s).heap ≡ s.heap
  heap-error_qualify code info id handle s =
      error_any env (λ (t : VelocitorState). t.heap ≡ s.heap) code info id handle s (λ e mem. refl)

  alloc_sized-HeapOk :
      (want size : ℕ) (s : VelocitorState)
      → HeapOk s.heap
      → (want ≡ node_any) ⊎ (want < nodes)
      → 0 < size
      → size % 256 ≡ 0
      → HeapOk (alloc_sized env want size s).1.heap
  unfolding alloc_sized
  alloc_sized-HeapOk want size s v w pos even =
      let P = λ (r : Result AllocResp × VelocitorState). HeapOk r.1.heap in
      choose P (test_bit s.err_inject err_inject_alloc_fail) (rw heap-error_set v) (
        dchoose P (ltb max_handles s.next_handle || not (alloc_pick_node s.heap want size).0)
          (λ _. rw heap-error_set v)
          λ room.
            let found = alloc_pick_node_lem s.heap want size w (ground arith) in
            take_block-HeapOk s.heap v size (alloc_pick_node s.heap want size).1 found.0 found.1 pos
              even (ground arith))

  -- ALLOC keeps the allocator's invariant, on every branch.
  pub alloc_block-HeapOk :
      (req : AllocReq) (s : VelocitorState) → HeapOk s.heap → HeapOk (alloc_block env req s).1.heap
  unfolding alloc_block
  alloc_block-HeapOk req s v =
      let P = λ (r : Result AllocResp × VelocitorState). HeapOk r.1.heap in
      dchoose P (not (req.node == node_any) && leb nodes req.node) (λ _. v)
        λ node.
          dchoose P ((req.size == 0) || ltb mem_size req.size) (λ _. v)
            λ size.
              let pos : 0 < req.size = ground arith in
              alloc_sized-HeapOk req.node (round_up req.size) s v (ground arith) (omega arith)
                (omega arith)

-- An entry taken out of use, and the count with it.
module _ (h : Heap) (ok_h : HeapOk h) (k : ℕ) (lt : k + 1 < h.next_handle)
    (live : (h.alloc k).live ≢ 0) where
  abbrev dropped : Heap
  dropped = record h {
    alloc = update h.alloc k (record (h.alloc k) { live = 0 });
    live_handles = (h.live_handles + 2 ^ 32 - 1) % 2 ^ 32;
  }

  dropped-HeapOk : HeapOk dropped
  dropped-HeapOk = record {
    first = ok_h.first;
    last = ok_h.last;
    base_le = ok_h.base_le;
    bump_le = ok_h.bump_le;
    aligned = ok_h.aligned;
    block = λ i l.
        dchoose (λ (b : VelocitorAlloc). BlockOk dropped b) (i == k)
          (λ e. same (h.alloc k) 0 (ok_h.block k lt))
          (λ e. same (h.alloc i) (h.alloc i).live (ok_h.block i l));
    apart = λ i j l last e. ground (arith, ok_h.apart i j l last);
    fresh = λ i le. ground (arith, ok_h.fresh i le);
    counted = ground (
      arith,
      ok_h.counted,
      ok_h.last,
      live_count_le h.alloc (h.next_handle - 1),
      live_count-update_lt h.alloc k (record (h.alloc k) { live = 0 }) (h.next_handle - 1)
          (omega arith),
    );
  }
    where
      same : (b : VelocitorAlloc) (l : ℕ) → BlockOk h b → BlockOk dropped (record b { live = l })
      same b l o = record {
        node_lt = o.node_lt;
        base_le = o.base_le;
        end_le = o.end_le;
        grown = o.grown;
        even = o.even;
      }

-- FREE keeps it, too.
pub free_block-HeapOk :
    (env : Env) (handle : ℕ) (s : VelocitorState)
    → HeapOk s.heap
    → HeapOk (free_block env handle s).1.heap
unfolding free_block bad_handle
free_block-HeapOk env handle s v =
    dchoose (λ (r : ℕ × VelocitorState). HeapOk r.1.heap) (bad_handle s.heap handle)
      (λ _. rw heap-error_qualify v)
      (λ good. dropped-HeapOk s.heap v (handle - 1) (ground arith) (ground arith))
