-- ===== src/Device/Allocator/Session.antt =====
-- The ALLOC and FREE calls of a session on the device allocator of qemu-device/velocitor.c, and that a
-- handle once freed stays dead.
pub mod Lives
use linux_pci_driver.Common.{
  ◌+◌, ◌-◌, ◌≢◌, refl, inl, inr, Bool-cases, update, update-other, ℕ, ◌+◌, ◌%◌, ◌^◌, ◌≤◌, ◌<◌, ltb,
  leb, ◌==◌, true, false, not, ◌&&◌, ◌||◌, ◌≡◌, sym, ◌∙◌, subst, List, [], ◌∷◌, arith, choose,
  dchoose, test_bit,
}
use linux_pci_driver.Hw.{nodes, node_any, mem_size, aperture_size, einval, err_inject_alloc_fail}
use linux_pci_driver.Device.State.{VelocitorState, Heap, Env}
use linux_pci_driver.Device.Allocator.{
  Result, AllocReq, AllocResp, max_handles, alloc_pick_node, round_up, take_block, bad_handle,
  alloc_sized, alloc_block, free_block, alloc_reset,
}
use linux_pci_driver.Device.Allocator.Sound.{
  HeapOk, alloc_reset-HeapOk, alloc_block-HeapOk, free_block-HeapOk, heap-error_qualify,
  heap-error_set,
}
use linux_pci_driver.Device.Allocator.Blocks.{
  others_same, block_of, block_bounds, blocks-Apart, Apart,
}

-- The calls of a session that touch the allocator.
pub data HeapCall : Type 0 where
  allocs : AllocReq → HeapCall
  frees : ℕ → HeapCall

unfoldable pub call : Env → HeapCall → VelocitorState → VelocitorState
call env (allocs req) s = (alloc_block env req s).1
call env (frees handle) s = (free_block env handle s).1

unfoldable pub run_calls : Env → List HeapCall → VelocitorState → VelocitorState
unfolding call
run_calls env [] s = s
run_calls env (c ∷ cs) s = run_calls env cs (call env c s)

-- A handle that was given out, and is dead.
abbrev pub Dead : ℕ → Heap → Type 0
Dead i h = HeapOk h × (i < h.next_handle) × (bad_handle h i ≡ true)

take_block-Dead :
    (h : Heap) (size node i : ℕ)
    → HeapOk h
    → h.next_handle ≤ max_handles
    → i < h.next_handle
    → bad_handle h i ≡ true
    → (i < (take_block h size node).next_handle) × (bad_handle (take_block h size node) i ≡ true)
unfolding take_block
take_block-Dead h size node i v room lt bad =
    (omega arith, others_same h size node v.first room i (omega arith) ∙ bad)

alloc_block-Dead :
    (env : Env) (req : AllocReq) (s : VelocitorState) (i : ℕ)
    → Dead i s.heap
    → Dead i (alloc_block env req s).1.heap
unfolding alloc_block alloc_sized
alloc_block-Dead env req s i (v, lt, bad) =
    let Q = λ (h : Heap). (i < h.next_handle) × (bad_handle h i ≡ true) in
    let P = λ (r : Result AllocResp × VelocitorState). Q r.1.heap in
    let kept = λ (h : Heap) (e : h ≡ s.heap). subst Q (sym e) (lt, bad) in
    let r =
      choose P (not (req.node == node_any) && leb nodes req.node) (lt, bad)
        (choose P ((req.size == 0) || ltb mem_size req.size) (lt, bad)
          (choose P (test_bit s.err_inject err_inject_alloc_fail)
            (kept _ (heap-error_set env _ _ _))
            (dchoose P
              (ltb max_handles s.next_handle
                || not (alloc_pick_node s.heap req.node (round_up req.size)).0)
              (λ _. kept _ (heap-error_set env _ _ _))
              (λ room. take_block-Dead s.heap _ _ i v (ground arith) lt bad)))) in
    (alloc_block-HeapOk env req s v, r.0, r.1)

free_block-Dead :
    (env : Env) (handle : ℕ) (s : VelocitorState) (i : ℕ)
    → Dead i s.heap
    → Dead i (free_block env handle s).1.heap
unfolding free_block bad_handle
free_block-Dead env handle s i (v, lt, bad) =
    let Q = λ (h : Heap). (i < h.next_handle) × (bad_handle h i ≡ true) in
    let r =
      choose (λ (r : ℕ × VelocitorState). Q r.1.heap) (bad_handle s.heap handle)
        (subst Q (sym (heap-error_qualify env _ _ _ _ _)) (lt, bad)) (lt, ground arith) in
    (free_block-HeapOk env handle s v, r.0, r.1)

pub run_calls-Dead :
    (env : Env) (cs : List HeapCall) (s : VelocitorState) (i : ℕ)
    → Dead i s.heap
    → Dead i (run_calls env cs s).heap
unfolding run_calls
run_calls-Dead env [] s i d = d
run_calls-Dead env (allocs req ∷ cs) s i d =
    run_calls-Dead env cs _ i (alloc_block-Dead env req s i d)
run_calls-Dead env (frees handle ∷ cs) s i d =
    run_calls-Dead env cs _ i (free_block-Dead env handle s i d)

freed-Dead :
    (env : Env) (i : ℕ) (s : VelocitorState)
    → HeapOk s.heap
    → bad_handle s.heap i ≡ false
    → Dead i (free_block env i s).1.heap
unfolding free_block bad_handle
freed-Dead env i s v live = (free_block-HeapOk env i s v, ground arith, ground arith)

-- In a well-formed allocator, FREE of a live handle succeeds, and whatever ALLOC and FREE calls
-- follow in the session, another FREE of it is refused with EINVAL: a handle is never handed out
-- again.
pub free_block_once :
    (env : Env) (i : ℕ) (cs : List HeapCall) (s : VelocitorState)
    → HeapOk s.heap
    → bad_handle s.heap i ≡ false
    → ((free_block env i s).0 ≡ 0)
      × ((free_block env i (run_calls env cs (free_block env i s).1)).0 ≡ einval)
unfolding free_block
free_block_once env i cs s v live =
    let d = run_calls-Dead env cs (free_block env i s).1 i (freed-Dead env i s v live) in
    (rw live, rw (d.2))

pub call-HeapOk :
    (env : Env) (c : HeapCall) (s : VelocitorState) → HeapOk s.heap → HeapOk (call env c s).heap
unfolding call
call-HeapOk env (allocs req) s v = alloc_block-HeapOk env req s v
call-HeapOk env (frees handle) s v = free_block-HeapOk env handle s v

pub run_calls-HeapOk :
    (env : Env) (cs : List HeapCall) (s : VelocitorState)
    → HeapOk s.heap
    → HeapOk (run_calls env cs s).heap
unfolding run_calls
run_calls-HeapOk env [] s v = v
run_calls-HeapOk env (c ∷ cs) s v = run_calls-HeapOk env cs _ (call-HeapOk env c s v)
