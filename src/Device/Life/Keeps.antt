-- ===== src/Device/Life/Keeps.antt =====
-- The invariant of the device of qemu-device/velocitor.c, and that the primitive moves and the allocator keep it.
use linux_pci_driver.Common.{
  ℕ, ◌+◌, ◌%◌, ◌≤◌, ◌<◌, ltb, leb, ◌==◌, false, not, ◌&&◌, ◌||◌, List, [], ◌∷◌, ◌≡◌, ◌⊎◌, inl, inr,
  choose, update, test_bit,
}
use linux_pci_driver.Hw.{window_size, mem_size, nodes, node_any, vq_count, irq_vec_error, dma_bits}
use linux_pci_driver.Hw as Hw
use linux_pci_driver.Device.State.{
  Message, VelocitorState, VelocitorQueue, Window, Heap, Env, Access, set_vq,
}
use linux_pci_driver.Device.Irq.{raise}
use linux_pci_driver.Device.Error.{error_qualify, error_set}
use linux_pci_driver.Device.Trace.{trace}
use linux_pci_driver.Device.Bus.{note_access}
use linux_pci_driver.Device.Allocator.{
  AllocReq, AllocResp, Result, alloc_block, alloc_sized, free_block, alloc_pick_node, round_up,
  bad_handle, max_handles,
}
use linux_pci_driver.Device.Allocator.Sound.{HeapOk, alloc_block-HeapOk, free_block-HeapOk}
use linux_pci_driver.Device.Sweep.{incomplete}
use linux_pci_driver.Device.Frame.{InReach, IsFrame, SameRing}
use linux_pci_driver.Device.Frame.Planes.{CopiesIn, ServesControl}
use linux_pci_driver.Device.Frame.Publish.{Publishes}
use linux_pci_driver.Device.Moves.{raise_any, trace_any, error_any}

-- An address that the window may take: aligned to it, with the whole window in device memory.
abbrev pub WindowAt : ℕ → Type 0
WindowAt base = (base % window_size ≡ 0) × (base + window_size ≤ mem_size)

-- A queue that is enabled is described.
abbrev pub Ready : VelocitorQueue → Type 0
Ready v = (v.enable ≡ 0) ⊎ (incomplete v ≡ false)

abbrev pub AllInReach : List Access → Type 0
AllInReach [] = Unit {0}
AllInReach (a ∷ rest) = InReach a × AllInReach rest

-- The invariant, by the parts of the state that it is about.
pub record Sound (w : Window) (vq : ℕ → VelocitorQueue) (select : ℕ) (done : List Access) (h : Heap)
    : Type 0 where
  pub base_at : WindowAt w.win_base
  pub pending_at : WindowAt w.win_pending
  pub ready : (q : ℕ) → Ready (vq q)
  pub select_lt : select < vq_count
  pub reach : AllInReach done
  pub heap : HeapOk h

abbrev pub IsSound : VelocitorState → Type 0
IsSound s = Sound s.win s.vq s.vq_select s.accesses s.heap

pub record Keeps (s t : VelocitorState) : Type 0 where
  pub keep : IsSound s → IsSound t

-- A move of what the invariant does not speak of.
pub kept : (s t : VelocitorState) → (IsSound s → IsSound t) → Keeps s t
kept s t h = record { keep = h }

pub and_then : (s t u : VelocitorState) → Keeps s t → Keeps t u → Keeps s u
and_then s t u f g = record { keep = λ i. g.keep (f.keep i) }

pub SameRing-Ready : (v w : VelocitorQueue) → SameRing v w → Ready v → Ready w
SameRing-Ready v w r (inl e) = inl (rw (r.enable) e)
SameRing-Ready v w r (inr e) = inr (
    rw (r.num, r.desc_lo, r.desc_hi, r.avail_lo, r.avail_hi, r.used_lo, r.used_hi, r.msix_vector) e)

pub with_vq-Keeps :
    (f : ℕ → VelocitorQueue) (s : VelocitorState)
    → (((q : ℕ) → Ready (s.vq q)) → (q : ℕ) → Ready (f q))
    → Keeps s (record s { queues = record (s.queues) { vq = f } })
with_vq-Keeps f s h = record {
  keep = λ i. record {
    base_at = i.base_at;
    pending_at = i.pending_at;
    ready = h i.ready;
    select_lt = i.select_lt;
    reach = i.reach;
    heap = i.heap;
  };
}

pub set_vq-Keeps :
    (q : ℕ) (v : VelocitorQueue) (s : VelocitorState)
    → (Ready (s.vq q) → Ready v)
    → Keeps s (set_vq q v s)
set_vq-Keeps q v s h =
    with_vq-Keeps (update s.vq q v) s (λ ready p. choose Ready (p == q) (h (ready q)) (ready p))

pub with_heap-Keeps :
    (h : Heap) (s : VelocitorState) → (HeapOk s.heap → HeapOk h) → Keeps s (record s { heap = h })
with_heap-Keeps h s ok = record {
  keep = λ i. record {
    base_at = i.base_at;
    pending_at = i.pending_at;
    ready = i.ready;
    select_lt = i.select_lt;
    reach = i.reach;
    heap = ok i.heap;
  };
}

pub with_win-Keeps :
    (w : Window) (s : VelocitorState)
    → (WindowAt s.win_pending → WindowAt s.win_base → WindowAt w.win_base × WindowAt w.win_pending)
    → Keeps s (record s { win = w })
with_win-Keeps w s h = record {
  keep = λ i. record {
    base_at = (h i.pending_at i.base_at).0;
    pending_at = (h i.pending_at i.base_at).1;
    ready = i.ready;
    select_lt = i.select_lt;
    reach = i.reach;
    heap = i.heap;
  };
}

pub with_access-Keeps : (a : Access) (s : VelocitorState) → InReach a → Keeps s (note_access a s)
with_access-Keeps a s near = record {
  keep = λ i. record {
    base_at = i.base_at;
    pending_at = i.pending_at;
    ready = i.ready;
    select_lt = i.select_lt;
    reach = (near, i.reach);
    heap = i.heap;
  };
}

-- What the allocator leaves alone.
record KeepsRest (s t : VelocitorState) : Type 0 where
  pub keep :
      (h : Heap)
      → Sound s.win s.vq s.vq_select s.accesses h
      → Sound t.win t.vq t.vq_select t.accesses h

with_rest-Keeps :
    (s t : VelocitorState) → KeepsRest s t → (HeapOk s.heap → HeapOk t.heap) → Keeps s t
with_rest-Keeps s t r ok = record {
  keep = λ i. r.keep t.heap ((with_heap-Keeps t.heap s ok).keep i);
}

pub Keeps-CopiesIn : CopiesIn Keeps
Keeps-CopiesIn at bytes s inside = kept s _ (λ i. i)

module _ (env : Env) where
  pub error-Keeps :
      (code info id handle : ℕ) (s : VelocitorState)
      → Keeps s (error_qualify env code info id handle s)
  error-Keeps code info id handle s =
      error_any env (Keeps s) code info id handle s (λ e mem. kept s _ (λ i. i))

  pub raise-Keeps : (v : ℕ) (s : VelocitorState) → Keeps s (raise v s)
  raise-Keeps v s = raise_any (Keeps s) v s (λ c status sent. kept s _ (λ i. i))

  pub trace-Keeps :
      (level engine seq : ℕ) (m : Message) (s : VelocitorState)
      → Keeps s (trace env level engine seq m s)
  trace-Keeps level engine seq m s =
      trace_any env (Keeps s) level engine seq m s (λ mem. kept s _ (λ i. i))

  error-KeepsRest :
      (code info id handle : ℕ) (s : VelocitorState)
      → KeepsRest s (error_qualify env code info id handle s)
  error-KeepsRest code info id handle s =
      error_any env (KeepsRest s) code info id handle s (λ e mem. record { keep = λ h i. i })

  alloc_block-KeepsRest :
      (req : AllocReq) (s : VelocitorState) → KeepsRest s (alloc_block env req s).1
  unfolding alloc_block alloc_sized error_set
  alloc_block-KeepsRest req s =
      let P = λ (r : Result AllocResp × VelocitorState). KeepsRest s r.1 in
      let same : KeepsRest s s = record { keep = λ h i. i } in
      choose P (not (req.node == node_any) && leb nodes req.node) same (
        choose P ((req.size == 0) || ltb mem_size req.size) same (
          choose P (test_bit s.err_inject Hw.err_inject_alloc_fail)
            (record { keep = λ h. (error-KeepsRest _ _ _ _ _).keep h })
            (choose P
              (ltb max_handles s.next_handle
                || not (alloc_pick_node s.heap req.node (round_up req.size)).0)
              (error-KeepsRest _ _ _ _ s) (record { keep = λ h i. i }))))

  free_block-KeepsRest : (handle : ℕ) (s : VelocitorState) → KeepsRest s (free_block env handle s).1
  unfolding free_block
  free_block-KeepsRest handle s =
      choose (λ (r : ℕ × VelocitorState). KeepsRest s r.1) (bad_handle s.heap handle)
        (error-KeepsRest _ _ _ _ s) (record { keep = λ h i. i })

  alloc-Keeps : (req : AllocReq) (s : VelocitorState) → Keeps s (alloc_block env req s).1
  alloc-Keeps req s =
      with_rest-Keeps s _ (alloc_block-KeepsRest req s) (alloc_block-HeapOk env req s)

  free-Keeps : (handle : ℕ) (s : VelocitorState) → Keeps s (free_block env handle s).1
  free-Keeps handle s =
      with_rest-Keeps s _ (free_block-KeepsRest handle s) (free_block-HeapOk env handle s)

  pub Keeps-IsFrame : IsFrame env Keeps
  Keeps-IsFrame = record {
    refl_R = λ s. kept s s (λ i. i);
    trans_R = and_then;
    count_R = λ i n s. kept s _ (λ k. k);
    raise_R = raise-Keeps;
    error_R = error-Keeps;
    trace_R = trace-Keeps;
    access_R = with_access-Keeps;
    ring_R = λ q v s same. set_vq-Keeps q v s (SameRing-Ready (s.vq q) v same);
  }

  pub Keeps-ServesControl : ServesControl env Keeps
  Keeps-ServesControl = record {
    alloc_R = alloc-Keeps;
    free_R = free-Keeps;
    announce_R = λ s. kept s _ (λ i. i);
  }

  pub Keeps-Publishes : Publishes env Keeps
  Keeps-Publishes = record {
    learn_R = λ q id off s. set_vq-Keeps q _ s (λ r. r);
    forget_R =
        λ s. with_vq-Keeps _ s (λ ready q. choose Ready (ltb q vq_count) (ready q) (ready q));
    valid_R = λ n s. kept s _ (λ i. i);
  }
