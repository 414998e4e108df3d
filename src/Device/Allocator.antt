-- ===== src/Device/Allocator.antt =====
-- The device allocator of qemu-device/velocitor.c: a bump pointer per node, handles from 1 on, and
-- the ALLOC, FREE and STAT operations of the control plane.
pub mod Sound
pub mod Blocks
pub mod Session
pub mod Stat
use linux_pci_driver.Common.{
  ℕ, zero, suc, ◌+◌, ◌-◌, ◌*◌, ◌/◌, ◌%◌, ◌^◌, ltb, leb, ◌==◌, if◌then◌else◌, Bool, true, false, not,
  ◌&&◌, ◌||◌, bit_and, test_bit, complement, update,
}
use linux_pci_driver.Hw.{
  nodes, node0_base, node0_end, node1_base, node1_end, node_any, mem_size, alloc_align,
  err_inject_alloc_fail, err_nomem, err_bad_handle, notifyid_none, einval, enomem,
}
use linux_pci_driver.Device.State.{VelocitorState, VelocitorAlloc, Heap, Inject, Env, add32}
use linux_pci_driver.Device.Error.{error_qualify, error_set}

-- What an operation answers: a value, or a negated errno.
pub data Result {ℓ} (A : Type ℓ) : Type ℓ where
  ok : A → Result A
  err : ℕ → Result A

-- VEL_MAX_HANDLES of velocitor.c.
abbrev pub max_handles : ℕ
max_handles = 1024

unfoldable pub node_base : ℕ → ℕ
node_base node = if node == 0 then node0_base else node1_base

unfoldable pub node_end : ℕ → ℕ
node_end node = if node == 0 then node0_end else node1_end

-- `uint64_t` subtraction.
unfoldable pub node_free : Heap → ℕ → ℕ
unfolding node_end
node_free h node = (node_end node + 2 ^ 64 - h.node_bump node) % 2 ^ 64

abbrev pub no_alloc : VelocitorAlloc
no_alloc = record { offset = 0; size = 0; node = 0; live = 0 }

-- The loop that sets `node_bump[n]` for the `k` nodes below `n + k`.
abbrev pub reset_bumps : ℕ → ℕ → (ℕ → ℕ) → ℕ → ℕ
reset_bumps zero n bump = bump
reset_bumps (suc k) n bump = reset_bumps k (n + 1) (update bump n (node_base n))

unfoldable pub alloc_reset : Heap → Heap
unfolding node_base
alloc_reset h = record {
  node_bump = reset_bumps nodes 0 h.node_bump;
  next_handle = 1;
  live_handles = 0;
  alloc = λ i. no_alloc;
}

-- `struct VelocitorAllocReq` and `struct VelocitorAllocResp`.
pub record AllocReq : Type 0 where
  pub size : ℕ
  pub dtype : ℕ
  pub node : ℕ

pub record AllocResp : Type 0 where
  pub handle : ℕ
  pub node : ℕ
  pub generation : ℕ
  pub dev_offset : ℕ

-- The first of the `k` nodes from `n` on that can hold the block.
unfoldable pub pick_any : ℕ → ℕ → Heap → ℕ → Bool × ℕ
pick_any zero n h size = (false, 0)
pick_any (suc k) n h size =
    let rest = pick_any k (n + 1) h size in if leb size (node_free h n) then (true, n) else rest

unfoldable pub alloc_pick_node : Heap → ℕ → ℕ → Bool × ℕ
unfolding pick_any
alloc_pick_node h want size =
    if not (want == node_any) then (leb size (node_free h want), want) else pick_any nodes 0 h size

-- `ROUND_UP(size, VEL_ALLOC_ALIGN)`
abbrev pub round_up : ℕ → ℕ
round_up size = (size + (alloc_align - 1)) / alloc_align * alloc_align

-- The table entry, the bump pointer and the counts of a block of `size` bytes on a node.
unfoldable pub take_block : Heap → ℕ → ℕ → Heap
take_block h size node = record {
  node_bump = update h.node_bump node ((h.node_bump node + size) % 2 ^ 64);
  next_handle = add32 h.next_handle 1;
  live_handles = add32 h.live_handles 1;
  alloc =
      update h.alloc (h.next_handle - 1)
        (record { offset = h.node_bump node; size = size; node = node; live = 1 });
}

unfoldable pub bad_handle : Heap → ℕ → Bool
bad_handle h handle =
    (handle == 0) || leb h.next_handle handle || ((h.alloc (handle - 1)).live == 0)

module _ (env : Env) where
  -- The part of `velocitor_alloc_block` behind the checks of the request.
  unfoldable pub alloc_sized : ℕ → ℕ → VelocitorState → Result AllocResp × VelocitorState
  alloc_sized want size s =
      let (found, node) = alloc_pick_node s.heap want size in
      if test_bit s.err_inject err_inject_alloc_fail
      then (
        err enomem,
        error_set env err_nomem size (record s {
          inject = record (s.inject) {
            err_inject = bit_and s.err_inject (complement 32 (2 ^ err_inject_alloc_fail));
          };
        }),
      )
      else if ltb max_handles s.next_handle || not found
      then (err enomem, error_set env err_nomem size s)
      else (
        ok (record {
          handle = s.next_handle;
          node = node;
          generation = s.generation;
          dev_offset = s.node_bump node;
        }),
        record s { heap = take_block s.heap size node },
      )

  unfoldable pub alloc_block : AllocReq → VelocitorState → Result AllocResp × VelocitorState
  alloc_block req s =
      if not (req.node == node_any) && leb nodes req.node
      then (err einval, s)
      else if (req.size == 0) || ltb mem_size req.size
      then (err einval, s)
      else alloc_sized req.node (round_up req.size) s

  -- FREE answers with its status alone: 0, or an errno.
  unfoldable pub free_block : ℕ → VelocitorState → ℕ × VelocitorState
  unfolding bad_handle
  free_block handle s =
      if bad_handle s.heap handle
      then (einval, error_qualify env err_bad_handle 0 notifyid_none handle s)
      else (
        0,
        record s {
          heap = record (s.heap) {
            alloc = update s.alloc (handle - 1) (record (s.alloc (handle - 1)) { live = 0 });
            live_handles = (s.live_handles + 2 ^ 32 - 1) % 2 ^ 32;
          };
        },
      )

-- `struct VelocitorStatResp`: capacity and free bytes of each node, and the live handles.
pub record StatResp : Type 0 where
  pub capacity : ℕ → ℕ
  pub free : ℕ → ℕ
  pub live_handles : ℕ

unfoldable pub stat_fill : VelocitorState → StatResp
unfolding node_base node_end node_free
stat_fill s = record {
  capacity = λ n. node_end n - node_base n;
  free = node_free s.heap;
  live_handles = s.live_handles;
}
