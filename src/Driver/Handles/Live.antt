-- ===== src/Driver/Handles/Live.antt =====
-- The handle table of module/src/handles.c beside the allocator of qemu-device/velocitor.c: ioctls,
-- lost requests and reboots in any order. An ALLOC and the insertion of its reply are one step, and
-- so are an erasure and its FREE.
use linux_pci_driver.Common.{
  ℕ, leb, ltb, ◌==◌, if◌then◌else◌, Bool, true, false, not, ◌||◌, ◌&&◌, test_bit, none, some, ◌≡◌,
  ◌≢◌, inl, inr, refl, sym, ap, ◌∙◌, subst, arith, update, update-same, update-other, choose,
  dchoose, Option-cases, ℕ_discrete,
}
use linux_pci_driver.Device.State.{VelocitorState, Env, Heap, add32}
use linux_pci_driver.Device.Moves.{trace_any, error_any}
use linux_pci_driver.Device.Error.{error_set}
use linux_pci_driver.Hw.{nodes, node_any, mem_size, err_inject_alloc_fail}
use linux_pci_driver.Device.Firmware.{boot_done}
use linux_pci_driver.Device.Allocator.{
  Result, ok, err, AllocReq, AllocResp, alloc_block, free_block, bad_handle, alloc_sized,
  alloc_pick_node, round_up, max_handles,
}
use linux_pci_driver.Device.Allocator.Sound.{
  HeapOk, alloc_reset-HeapOk, alloc_block-HeapOk, free_block-HeapOk, heap-error_qualify,
}
use linux_pci_driver.Device.Allocator.Blocks.{Granted, alloc_block_lem}
use linux_pci_driver.Driver.Handles.{
  Handle, Handles, handles_regenerate, handles_insert, handles_erase, xa_insert, erase_entry,
}

-- The table and the device.
abbrev pub Pair : Type 0
Pair = Handles × VelocitorState

-- What an ALLOC that the device served leaves of the table.
unfoldable pub store_reply : Bool → Bool → ℕ → Result AllocResp → Handles → Handles
store_reply memory room size (ok resp) t = (handles_insert memory room size resp t).1
store_reply memory room size (err e) t = t

module _ (env : Env) where
  -- FREE is sent for a handle that was in the table.
  unfoldable pub ioctl_free : ℕ → ℕ → Pair → Pair
  ioctl_free generation handle (t, s) =
      let (status, t1) = handles_erase generation handle t in
      (t1, if status == 0 then (free_block env handle s).1 else s)

  pub data Step : Pair → Pair → Type 0 where
    allocs :
        (memory room : Bool) (req : AllocReq) (t : Handles) (s : VelocitorState)
        → Step
            (t, s)
            (
              store_reply memory room req.size (alloc_block env req s).0 t,
              (alloc_block env req s).1,
            )
    alloc_lost :
        (req : AllocReq) (t : Handles) (s : VelocitorState)
        → Step (t, s) (t, (alloc_block env req s).1)
    frees : (generation handle : ℕ) (p : Pair) → Step p (ioctl_free generation handle p)
    free_lost :
        (generation handle : ℕ) (t : Handles) (s : VelocitorState)
        → Step (t, s) ((handles_erase generation handle t).1, s)
    -- The number of the new generation is not that of the table's.
    boots :
        (t : Handles) (s : VelocitorState)
        → add32 s.generation 1 ≢ t.generation
        → Step (t, s) (t, boot_done env s)
    regenerates :
        (t : Handles) (s : VelocitorState) → Step (t, s) (handles_regenerate s.generation t, s)

  pub data Reach (start : Pair) : Pair → Type 0 where
    here : Reach start start
    next : {p q : Pair} → Reach start p → Step p q → Reach start q

  record Tracks (p : Pair) : Type 0 where
    heap : HeapOk p.1.heap
    live :
        (h : ℕ) (e : Handle)
        → p.0.entries h ≡ some e
        → p.0.generation ≡ p.1.generation
        → bad_handle p.1.heap h ≡ false

  insert-Tracks :
      (memory room : Bool) (size : ℕ) (resp : AllocResp) (t : Handles) (s : VelocitorState)
      → resp.generation ≡ s.generation
      → bad_handle s.heap resp.handle ≡ false
      → Tracks (t, s)
      → Tracks ((handles_insert memory room size resp t).1, s)
  unfolding handles_insert xa_insert
  insert-Tracks memory room size resp t s gen good tracks =
      let P = λ (r : ℕ × Handles). Tracks (r.1, s) in
      choose P (not memory) tracks (
        choose P (not (resp.generation == t.generation)) tracks
          (elim (Option-cases (t.entries resp.handle)) [
            | inr (old, e) ↦ rw e tracks
            | inl free ↦ rw free (
                choose P room
                  (record {
                    heap = tracks.heap;
                    live = λ h e at same. elim (ℕ_discrete h resp.handle) [
                      | yes mine ↦ ap (bad_handle s.heap) mine ∙ good
                      | no other ↦
                          tracks.live h e (sym (update-other t.entries resp.handle _ h other) ∙ at)
                            same
                    ];
                  })
                  tracks)
          ]))

  removed-Tracks :
      (handle : ℕ) (t : Handles) (s : VelocitorState)
      → Tracks (t, s)
      → Tracks (record t { entries = update t.entries handle none }, s)
  removed-Tracks handle t s tracks = record {
    heap = tracks.heap;
    live = λ h x at same. elim (ℕ_discrete h handle) [
      | yes mine ↦ absurd (
          cc (
            sym (update-same t.entries handle none)
            ∙ ap (update t.entries handle none) (sym mine)
            ∙ at))
      | no other ↦ tracks.live h x (sym (update-other t.entries handle none h other) ∙ at) same
    ];
  }

  erase-Tracks :
      (generation handle : ℕ) (t : Handles) (s : VelocitorState)
      → Tracks (t, s)
      → Tracks ((handles_erase generation handle t).1, s)
  unfolding handles_erase erase_entry
  erase-Tracks generation handle t s tracks =
      choose (λ (r : ℕ × Handles). Tracks (r.1, s)) (not (generation == t.generation)) tracks
        (elim (Option-cases (t.entries handle)) [
          | inl gone ↦ rw gone tracks
          | inr (old, e) ↦ rw e (removed-Tracks handle t s tracks)
        ])

  free_others :
      (h i : ℕ) (s : VelocitorState)
      → i ≢ h
      → bad_handle s.heap i ≡ false
      → bad_handle (free_block env h s).1.heap i ≡ false
  unfolding free_block bad_handle
  free_others h i s other good =
      dchoose (λ (r : ℕ × VelocitorState). bad_handle r.1.heap i ≡ false) (bad_handle s.heap h)
        (λ _.
          subst (λ (u : Heap). bad_handle u i ≡ false) (sym (heap-error_qualify env _ _ _ _ s))
            good)
        (λ live. ground arith)

  free_generation : (h : ℕ) (s : VelocitorState) → (free_block env h s).1.generation ≡ s.generation
  unfolding free_block
  free_generation h s =
      choose (λ (r : ℕ × VelocitorState). r.1.generation ≡ s.generation) (bad_handle s.heap h)
        (error_any env (λ (u : VelocitorState). u.generation ≡ s.generation) _ _ _ _ s
          (λ e mem. refl))
        refl

  free-Tracks :
      (h : ℕ) (t : Handles) (s : VelocitorState)
      → t.entries h ≡ none
      → Tracks (t, s)
      → Tracks (t, (free_block env h s).1)
  free-Tracks h t s gone tracks = record {
    heap = free_block-HeapOk env h s tracks.heap;
    live = λ i e at same.
        free_others h i s (λ mine. cc (sym at ∙ ap t.entries mine ∙ gone))
          (tracks.live i e at (same ∙ free_generation h s));
  }

  error_generation :
      (code info : ℕ) (s : VelocitorState) → (error_set env code info s).generation ≡ s.generation
  unfolding error_set
  error_generation code info s =
      error_any env (λ (u : VelocitorState). u.generation ≡ s.generation) _ _ _ _ s (λ e mem. refl)

  alloc_generation :
      (req : AllocReq) (s : VelocitorState) → (alloc_block env req s).1.generation ≡ s.generation
  unfolding alloc_block alloc_sized
  alloc_generation req s =
      let P = λ (r : Result AllocResp × VelocitorState). r.1.generation ≡ s.generation in
      choose P (not (req.node == node_any) && leb nodes req.node) refl (
        choose P ((req.size == 0) || ltb mem_size req.size) refl (
          choose P (test_bit s.err_inject err_inject_alloc_fail) (error_generation _ _ _) (
            choose P
              (ltb max_handles s.next_handle
                || not (alloc_pick_node s.heap req.node (round_up req.size)).0)
              (error_generation _ _ _) refl)))

  Granted-Tracks :
      (memory room : Bool) (req : AllocReq) (t : Handles) (s : VelocitorState)
      (r : Result AllocResp × VelocitorState)
      → Granted req s r
      → HeapOk r.1.heap
      → r.1.generation ≡ s.generation
      → Tracks (t, s)
      → Tracks (t, r.1) × Tracks (store_reply memory room req.size r.0 t, r.1)
  unfolding store_reply
  Granted-Tracks memory room req t s (ok a, u) (_, good, _, _, _, gen, after) heap kept tracks =
      let still : Tracks (t, u) = record {
        heap = heap;
        live = λ h e at same. after h ∙ ground (arith, tracks.live h e at (same ∙ kept));
      } in
      (still, insert-Tracks memory room req.size a t u (gen ∙ sym kept) good still)
  Granted-Tracks memory room req t s (err x, u) same_heap heap kept tracks =
      let still : Tracks (t, u) = record {
        heap = heap;
        live = λ h e at same.
            ap (λ (v : Heap). bad_handle v h) same_heap ∙ tracks.live h e at (same ∙ kept);
      } in
      (still, still)

  boot-Tracks :
      (t : Handles) (s : VelocitorState)
      → add32 s.generation 1 ≢ t.generation
      → Tracks (t, boot_done env s)
  unfolding boot_done
  boot-Tracks t s new =
      trace_any env (λ (u : VelocitorState). Tracks (t, u)) _ _ _ _ _
        (λ mem. record {
          heap = alloc_reset-HeapOk s.heap;
          live = λ h e at same. absurd (new (sym same));
        })

  regenerate-Tracks :
      (t : Handles) (s : VelocitorState)
      → Tracks (t, s)
      → Tracks (handles_regenerate s.generation t, s)
  unfolding handles_regenerate
  regenerate-Tracks t s tracks =
      choose (λ (u : Handles). Tracks (u, s)) (t.generation == s.generation) tracks
        (record { heap = tracks.heap; live = λ h e at same. absurd (cc at) })

  ioctl_free-Tracks :
      (generation handle : ℕ) (p : Pair) → Tracks p → Tracks (ioctl_free generation handle p)
  unfolding ioctl_free handles_erase erase_entry
  ioctl_free-Tracks generation handle (t, s) tracks =
      choose
        (λ (r : ℕ × Handles). Tracks (r.1, if r.0 == 0 then (free_block env handle s).1 else s))
        (not (generation == t.generation)) tracks
        (elim (Option-cases (t.entries handle)) [
          | inl gone ↦ rw gone tracks
          | inr (old, e) ↦ rw e (
              free-Tracks handle _ s (update-same t.entries handle none)
                (removed-Tracks handle t s tracks))
        ])

  Step-Tracks : {p q : Pair} → Step p q → Tracks p → Tracks q
  Step-Tracks (allocs memory room req t s) tracks =
      (Granted-Tracks memory room req t s (alloc_block env req s)
        (alloc_block_lem env req s tracks.heap) (alloc_block-HeapOk env req s tracks.heap)
        (alloc_generation req s) tracks).1
  Step-Tracks (alloc_lost req t s) tracks =
      (Granted-Tracks true true req t s (alloc_block env req s)
        (alloc_block_lem env req s tracks.heap) (alloc_block-HeapOk env req s tracks.heap)
        (alloc_generation req s) tracks).0
  Step-Tracks (frees generation handle p) tracks = ioctl_free-Tracks generation handle p tracks
  Step-Tracks (free_lost generation handle t s) tracks = erase-Tracks generation handle t s tracks
  Step-Tracks (boots t s new) tracks = boot-Tracks t s new
  Step-Tracks (regenerates t s) tracks = regenerate-Tracks t s tracks

  Reach-Tracks : {p q : Pair} → Tracks p → Reach p q → Tracks q
  Reach-Tracks tracks here = tracks
  Reach-Tracks tracks (next run step) = Step-Tracks step (Reach-Tracks tracks run)

-- Every handle that the driver knows is live on the device: in every order of ALLOC and FREE calls,
-- of requests and replies that get lost, of entries that there is no memory for, of reboots and of
-- renewals of the table, from an empty table on, a handle with an entry names a live block whenever
-- the table is of the device's generation, so that the FREE of it succeeds. An ALLOC and the entry
-- for its reply are one step, and a reboot never comes back to the table's generation.
pub known_handle :
    (env : Env) (t : Handles) (s : VelocitorState) (q : Pair) (h : ℕ) (e : Handle)
    → HeapOk s.heap
    → ((k : ℕ) → t.entries k ≡ none)
    → Reach env (t, s) q
    → q.0.entries h ≡ some e
    → q.0.generation ≡ q.1.generation
    → (bad_handle q.1.heap h ≡ false) × ((free_block env h q.1).0 ≡ 0)
unfolding free_block
known_handle env t s q h e heap empty run at same =
    let start : Tracks env (t, s) = record {
      heap = heap;
      live = λ k x here _. absurd (cc (empty k, here));
    } in
    let live = (Reach-Tracks env start run).live h e at same in (live, rw live refl)
