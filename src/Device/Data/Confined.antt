-- ===== src/Device/Data/Confined.antt =====
-- Where the data plane of qemu-device/velocitor.c writes in device memory: `velocitor_engine_drain`
-- with every request and every log line.
use linux_pci_driver.Common.{
  ℕ, ◌+◌, ◌-◌, ◌*◌, ◌/◌, ◌%◌, ◌^◌, ◌≤◌, ◌<◌, leb, ◌==◌, List, [], ◌∷◌, ◌++◌, ◌≡◌, ◌⊎◌, inl, inr,
  refl, sym, ap, subst, ◌∙◌, arith, store, length, length-append, length-take_le, take, replicate,
  to_le16, to_le32, to_le64, choose, dchoose, test_bit,
}
use linux_pci_driver.Hw.{trace_size, trace_entry, trace_entries, trace_hdr_size, aperture_size}
use linux_pci_driver.Hw as Hw
use linux_pci_driver.Device.State.{VelocitorState, Env, Heap, Firmware, Message}
use linux_pci_driver.Device.Trace.{trace, mem_write32, append_entry, count_dropped, trace_bytes}
use linux_pci_driver.Device.Error.{error_qualify}
use linux_pci_driver.Device.Data.{engine_drain}
use linux_pci_driver.Device.Frame.{IsFrame}
use linux_pci_driver.Device.Frame.Planes.{CopiesIn, InBlock, engine_drain-Holds}
use linux_pci_driver.Device.Moves.{raise_any}

-- A trace ring as the firmware header should describe it: aligned to words, in the fixed aperture.
abbrev pub TraceAt : ℕ → Type 0
TraceAt da = (da % 4 ≡ 0) × (da + trace_size ≤ aperture_size)

abbrev pub Outside : ℕ → ℕ → ℕ → Type 0
Outside a at n = (a < at) ⊎ (at + n ≤ a)

-- A byte that is neither in the trace ring nor in the block of a live handle.
pub record Foreign (da : ℕ) (h : Heap) (a : ℕ) : Type 0 where
  pub ring : Outside a da trace_size
  pub blocks : (at n : ℕ) → InBlock h at n → Outside a at n

pub store-Outside :
    (m : ℕ → ℕ) (at : ℕ) (l : List ℕ) (a : ℕ) → Outside a at (length l) → store m at l a ≡ m a
unfolding store
store-Outside m at [] a out = refl
store-Outside m at (x ∷ xs) a (inl lt) =
    dchoose (λ (b : ℕ). b ≡ m a) (a == at) (λ e. absurd (ground arith))
      (λ _. store-Outside m (at + 1) xs a (inl (omega arith)))
store-Outside m at (x ∷ xs) a (inr ge) =
    dchoose (λ (b : ℕ). b ≡ m a) (a == at) (λ e. absurd (ground arith))
      (λ _. store-Outside m (at + 1) xs a (inr (omega arith)))

trace_bytes-length : (t l e n : ℕ) (text : List ℕ) → length (trace_bytes t l e n text) ≤ trace_entry
unfolding trace_bytes
trace_bytes-length t l e n text =
    let body = take 111 text ++ replicate 112 0 in
    omega (
      arith,
      length-append (to_le64 t) (to_le16 l ++ (to_le16 e ++ (to_le32 n ++ take 112 body))),
      length-take_le 112 body,
    )

pub word-Outside :
    (m : ℕ → ℕ) (off v a : ℕ) → Outside a (off / 4 * 4) 4 → mem_write32 m off v a ≡ m a
unfolding mem_write32
word-Outside m off v a out = store-Outside m (off / 4 * 4) (to_le32 v) a out

-- The header words of a ring are within it.
header_word :
    (da off a : ℕ)
    → TraceAt da
    → Outside a da trace_size
    → off < trace_hdr_size
    → Outside a ((da + off) % 2 ^ 32 / 4 * 4) 4
header_word da off a (even, low) (inl lt) small = inl (omega arith)
header_word da off a (even, low) (inr ge) small = inr (omega arith)

entry_slot :
    (da slot n a : ℕ)
    → Outside a da trace_size
    → slot < trace_entries
    → n ≤ trace_entry
    → Outside a (da + trace_hdr_size + slot * trace_entry) n
entry_slot da slot n a (inl lt) small short = inl (omega arith)
entry_slot da slot n a (inr ge) small short = inr (omega arith)

pub count_dropped-Outside :
    (da head tail : ℕ) (m : ℕ → ℕ) (a : ℕ)
    → TraceAt da
    → Outside a da trace_size
    → count_dropped da head tail m a ≡ m a
unfolding count_dropped
count_dropped-Outside da head tail m a at out =
    choose (λ (f : ℕ → ℕ). f a ≡ m a) (leb trace_entries ((head + 2 ^ 32 - tail) % 2 ^ 32))
      (word-Outside m _ _ a (header_word da Hw.trace_off_dropped a at out (omega arith))) refl

append_entry-Outside :
    (da head tail : ℕ) (entry : List ℕ) (m : ℕ → ℕ) (a : ℕ)
    → TraceAt da
    → length entry ≤ trace_entry
    → Outside a da trace_size
    → append_entry da head tail entry m a ≡ m a
unfolding append_entry
append_entry-Outside da head tail entry m a at short out =
    let slot = head % trace_entries in
    word-Outside _ _ _ a (header_word da Hw.trace_off_head a at out (omega arith))
    ∙ count_dropped-Outside da head tail _ a at out
    ∙ store-Outside m (da + trace_hdr_size + slot * trace_entry) entry a
        (entry_slot da slot (length entry) a out (omega arith) short)

-- What a move of the data plane may change: of device memory, the trace ring and live blocks.
pub record Confined (s t : VelocitorState) : Type 0 where
  fw : t.fw ≡ s.fw
  pub heap : t.heap ≡ s.heap
  mem : (a : ℕ) → TraceAt s.trace_da → Foreign s.trace_da s.heap a → t.mem a ≡ s.mem a

Confined-trans : (s t u : VelocitorState) → Confined s t → Confined t u → Confined s u
Confined-trans s t u f g = record {
  fw = g.fw ∙ f.fw;
  heap = g.heap ∙ f.heap;
  mem = λ a at out.
      let far = subst (λ (h : Heap). Foreign s.trace_da h a) (sym f.heap) out in
      g.mem a (subst (λ (x : Firmware). TraceAt x.trace_da) (sym f.fw) at)
        (subst (λ (x : Firmware). Foreign x.trace_da t.heap a) (sym f.fw) far)
      ∙ f.mem a at out;
}

quiet : (s t : VelocitorState) → t.fw ≡ s.fw → t.heap ≡ s.heap → t.mem ≡ s.mem → Confined s t
quiet s t fw heap mem = record {
  fw = fw;
  heap = heap;
  mem = λ a at out. ap (λ (m : ℕ → ℕ). m a) mem;
}

module _ (env : Env) where
  trace-Confined :
      (level engine seq : ℕ) (m : Message) (s : VelocitorState)
      → Confined s (trace env level engine seq m s)
  unfolding trace
  trace-Confined level engine seq m s =
      choose (Confined s) (s.trace_da == 0) (quiet s s refl refl refl) (record {
        fw = refl;
        heap = refl;
        mem = λ a at out.
            append_entry-Outside s.trace_da _ _ _ s.mem a at (trace_bytes-length _ _ _ _ _)
              out.ring;
      })

  error_qualify-Confined :
      (code info id handle : ℕ) (s : VelocitorState)
      → Confined s (error_qualify env code info id handle s)
  unfolding error_qualify
  error_qualify-Confined code info id handle s =
      choose (Confined s) (test_bit s.irq_status Hw.irq_vec_error) (quiet s _ refl refl refl)
        (Confined-trans s _ _ (quiet s _ refl refl refl) (trace-Confined _ _ _ _ _))

  pub Confined-IsFrame : IsFrame env Confined
  Confined-IsFrame = record {
    refl_R = λ s. quiet s s refl refl refl;
    trans_R = Confined-trans;
    count_R = λ i n s. quiet s _ refl refl refl;
    raise_R = λ v s. raise_any (Confined s) v s (λ c status sent. quiet s _ refl refl refl);
    error_R = error_qualify-Confined;
    trace_R = trace-Confined;
    access_R = λ a s near. quiet s _ refl refl refl;
    ring_R = λ q v s same. quiet s _ refl refl refl;
  }

Confined-CopiesIn : CopiesIn Confined
Confined-CopiesIn at bytes s inside = record {
  fw = refl;
  heap = refl;
  mem = λ a ring out. store-Outside s.mem at bytes a (out.blocks at (length bytes) inside);
}

-- However many requests an engine queue holds, and whatever they, their descriptors and the bus say:
-- with a trace ring that is aligned to words and lies in the fixed aperture, serving them changes no
-- byte of device memory but those of the trace ring and those of the blocks of live handles. It also
-- leaves the handle table and the firmware state alone.
pub engine_drain-confined :
    (env : Env) (fuel q a : ℕ) (s : VelocitorState)
    → TraceAt s.trace_da
    → Foreign s.trace_da s.heap a
    → let t = (engine_drain env fuel q s).1 in
      (t.mem a ≡ s.mem a) × (t.heap ≡ s.heap) × (t.fw ≡ s.fw)
engine_drain-confined env fuel q a s at out =
    let c = (engine_drain-Holds (Confined-IsFrame env) Confined-CopiesIn fuel q).apply s in
    (c.mem a at out, c.heap, c.fw)
