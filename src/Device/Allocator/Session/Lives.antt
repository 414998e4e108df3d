-- ===== src/Device/Allocator/Session/Lives.antt =====
-- Where the blocks of live handles lie while a session makes ALLOC and FREE calls on the device
-- allocator of qemu-device/velocitor.c.
use linux_pci_driver.Common.{
  ◌+◌, ◌-◌, ◌≢◌, refl, inl, inr, Bool-cases, update, update-other, ℕ, ◌+◌, ◌%◌, ◌^◌, ◌≤◌, ◌<◌, ltb,
  leb, ◌==◌, false, not, ◌&&◌, ◌||◌, ◌≡◌, sym, ◌∙◌, subst, List, [], ◌∷◌, arith, choose, dchoose,
  test_bit,
}
use linux_pci_driver.Hw.{nodes, node_any, mem_size, aperture_size, err_inject_alloc_fail}
use linux_pci_driver.Device.State.{VelocitorState, Heap, Env}
use linux_pci_driver.Device.Allocator.{
  Result, AllocReq, AllocResp, max_handles, alloc_pick_node, round_up, take_block, bad_handle,
  alloc_sized, alloc_block, free_block, alloc_reset,
}
use linux_pci_driver.Device.Allocator.Sound.{
  HeapOk, alloc_reset-HeapOk, heap-error_qualify, heap-error_set,
}
use linux_pci_driver.Device.Allocator.Blocks.{block_of, block_bounds, blocks-Apart, Apart}
use linux_pci_driver.Device.Allocator.Session.{
  HeapCall, allocs, frees, call, run_calls, run_calls-Dead, call-HeapOk, run_calls-HeapOk,
}

-- A live handle, and what the block of one is.
abbrev Live : ℕ → Heap → Type 0
Live i h = bad_handle h i ≡ false

take_block-block_of :
    (h : Heap) (size node i : ℕ) → Live i h → block_of (take_block h size node) i ≡ block_of h i
unfolding take_block bad_handle
take_block-block_of h size node i live =
    update-other h.alloc (h.next_handle - 1) _ (i - 1) (λ e. ground (arith, live, e))

alloc_block-block_of :
    (env : Env) (req : AllocReq) (s : VelocitorState) (i : ℕ)
    → Live i s.heap
    → block_of (alloc_block env req s).1.heap i ≡ block_of s.heap i
unfolding alloc_block alloc_sized
alloc_block-block_of env req s i live =
    let Q = λ (h : Heap). block_of h i ≡ block_of s.heap i in
    let P = λ (r : Result AllocResp × VelocitorState). Q r.1.heap in
    let kept = λ (h : Heap) (e : h ≡ s.heap). subst Q (sym e) refl in
    choose P (not (req.node == node_any) && leb nodes req.node) refl (
      choose P ((req.size == 0) || ltb mem_size req.size) refl (
        choose P (test_bit s.err_inject err_inject_alloc_fail) (kept _ (heap-error_set env _ _ _)) (
          choose P
            (ltb max_handles s.next_handle
              || not (alloc_pick_node s.heap req.node (round_up req.size)).0)
            (kept _ (heap-error_set env _ _ _)) (take_block-block_of s.heap _ _ i live))))

released-block_of :
    (h : Heap) (handle i n : ℕ)
    → let h1 = record h {
      alloc = update h.alloc (handle - 1) (record (h.alloc (handle - 1)) { live = 0 });
      live_handles = n;
    } in
      Live i h1 → block_of h1 i ≡ block_of h i
unfolding bad_handle
released-block_of h handle i n still =
    update-other h.alloc (handle - 1) _ (i - 1) (λ e. ground (arith, still, e))

free_block-block_of :
    (env : Env) (handle : ℕ) (s : VelocitorState) (i : ℕ)
    → Live i (free_block env handle s).1.heap
    → block_of (free_block env handle s).1.heap i ≡ block_of s.heap i
unfolding free_block
free_block-block_of env handle s i =
    let Q = λ (h : Heap). Live i h → block_of h i ≡ block_of s.heap i in
    choose (λ (r : ℕ × VelocitorState). Q r.1.heap) (bad_handle s.heap handle)
      (subst Q (sym (heap-error_qualify env _ _ _ _ _)) (λ _. refl))
      (released-block_of s.heap handle i ((s.live_handles + 2 ^ 32 - 1) % 2 ^ 32))

call-block_of :
    (env : Env) (c : HeapCall) (s : VelocitorState) (i : ℕ)
    → Live i s.heap
    → Live i (call env c s).heap
    → block_of (call env c s).heap i ≡ block_of s.heap i
unfolding call
call-block_of env (allocs req) s i live still = alloc_block-block_of env req s i live
call-block_of env (frees handle) s i live still = free_block-block_of env handle s i still

take_block_next :
    (h : Heap) (size node : ℕ)
    → h.next_handle ≤ max_handles
    → h.next_handle ≤ (take_block h size node).next_handle
unfolding take_block
take_block_next h size node room = omega arith

alloc_block_next :
    (env : Env) (req : AllocReq) (s : VelocitorState)
    → s.heap.next_handle ≤ (alloc_block env req s).1.heap.next_handle
unfolding alloc_block alloc_sized
alloc_block_next env req s =
    let Q = λ (h : Heap). s.heap.next_handle ≤ h.next_handle in
    let P = λ (r : Result AllocResp × VelocitorState). Q r.1.heap in
    let start : Q s.heap = omega arith in
    let kept = λ (h : Heap) (e : h ≡ s.heap). subst Q (sym e) start in
    choose P (not (req.node == node_any) && leb nodes req.node) start (
      choose P ((req.size == 0) || ltb mem_size req.size) start (
        choose P (test_bit s.err_inject err_inject_alloc_fail) (kept _ (heap-error_set env _ _ _)) (
          dchoose P
            (ltb max_handles s.next_handle
              || not (alloc_pick_node s.heap req.node (round_up req.size)).0)
            (λ _. kept _ (heap-error_set env _ _ _))
            (λ room. take_block_next s.heap _ _ (ground arith)))))

free_block_next :
    (env : Env) (handle : ℕ) (s : VelocitorState)
    → s.heap.next_handle ≤ (free_block env handle s).1.heap.next_handle
unfolding free_block
free_block_next env handle s =
    let Q = λ (h : Heap). s.heap.next_handle ≤ h.next_handle in
    let start : Q s.heap = omega arith in
    choose (λ (r : ℕ × VelocitorState). Q r.1.heap) (bad_handle s.heap handle)
      (subst Q (sym (heap-error_qualify env _ _ _ _ _)) start) start

call_next :
    (env : Env) (c : HeapCall) (s : VelocitorState)
    → s.heap.next_handle ≤ (call env c s).heap.next_handle
unfolding call
call_next env (allocs req) s = alloc_block_next env req s
call_next env (frees handle) s = free_block_next env handle s

live_lt : (h : Heap) (i : ℕ) → Live i h → i < h.next_handle
unfolding bad_handle
live_lt h i live = ground arith

run_calls-block_of :
    (env : Env) (cs : List HeapCall) (s : VelocitorState) (i : ℕ)
    → HeapOk s.heap
    → Live i s.heap
    → Live i (run_calls env cs s).heap
    → block_of (run_calls env cs s).heap i ≡ block_of s.heap i
unfolding run_calls
run_calls-block_of env [] s i v live still = refl
run_calls-block_of env (c ∷ cs) s i v live still =
    elim (Bool-cases (bad_handle (call env c s).heap i)) [
      | inl dead ↦ absurd (
          cc (
            still,
            (run_calls-Dead env cs (call env c s) i (
              call-HeapOk env c s v,
              omega (arith, live_lt s.heap i live, call_next env c s),
              dead,
            )).2,
          ))
      | inr now ↦
          run_calls-block_of env cs _ i (call-HeapOk env c s v) now still
          ∙ call-block_of env c s i live now
    ]

-- The allocator after its reset and a session of calls.
abbrev pub from_reset : Env → List HeapCall → VelocitorState → VelocitorState
from_reset env cs s = run_calls env cs (record s { heap = alloc_reset s.heap })

-- From the reset of the allocator on, whatever ALLOC and FREE calls a session makes: a block that was
-- handed out stays where it is and as large as it is while its handle is live, it lies in device
-- memory behind the fixed aperture, and it has no byte in common with the block of any other live
-- handle, whether that was given out before or after.
pub live_blocks :
    (env : Env) (cs ds : List HeapCall) (s : VelocitorState) (i j : ℕ)
    → bad_handle (from_reset env cs s).heap i ≡ false
    → bad_handle (run_calls env ds (from_reset env cs s)).heap i ≡ false
    → bad_handle (run_calls env ds (from_reset env cs s)).heap j ≡ false
    → i ≢ j
    → (block_of (run_calls env ds (from_reset env cs s)).heap i
        ≡ block_of (from_reset env cs s).heap i)
      × (aperture_size ≤ (block_of (from_reset env cs s).heap i).offset)
      × ((block_of (from_reset env cs s).heap i).offset
            + (block_of (from_reset env cs s).heap i).size
          ≤ mem_size)
      × Apart
          (block_of (from_reset env cs s).heap i)
          (block_of (run_calls env ds (from_reset env cs s)).heap j)
live_blocks env cs ds s i j first still other ne =
    let t = from_reset env cs s in
    let u = run_calls env ds t in
    let v =
      run_calls-HeapOk env cs (record s { heap = alloc_reset s.heap })
        (alloc_reset-HeapOk s.heap) in
    let same = run_calls-block_of env ds t i v first still in
    let (low, high) = block_bounds t.heap i v first in
    (
      same,
      low,
      high,
      subst (λ b. Apart b (block_of u.heap j)) same
          (blocks-Apart u.heap i j (run_calls-HeapOk env ds t v) still other ne),
    )
