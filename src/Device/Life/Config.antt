-- ===== src/Device/Life/Config.antt =====
-- What a service of the queues of qemu-device/velocitor.c leaves as the driver configured it.
use linux_pci_driver.Common.{
  ℕ, ltb, leb, ◌==◌, not, ◌&&◌, ◌||◌, ◌≡◌, refl, sym, subst, ap, ◌∙◌, ==→eq, choose, dchoose,
  test_bit,
}
use linux_pci_driver.Hw.{vq_count, nodes, node_any, mem_size}
use linux_pci_driver.Hw as Hw
use linux_pci_driver.Device.State.{
  VelocitorState, VelocitorQueue, Env, Window, Firmware, Dma, Rsc, set_vq,
}
use linux_pci_driver.Device.Error.{error_qualify, error_set}
use linux_pci_driver.Device.Allocator.{
  AllocReq, AllocResp, Result, alloc_block, alloc_sized, free_block, alloc_pick_node, round_up,
  bad_handle, max_handles,
}
use linux_pci_driver.Device.Sweep.{vq_service}
use linux_pci_driver.Device.Frame.{IsFrame, SameRing}
use linux_pci_driver.Device.Frame.Planes.{CopiesIn, ServesControl}
use linux_pci_driver.Device.Frame.Service.{vq_service-R}
use linux_pci_driver.Device.Moves.{raise_any, trace_any, error_any}

-- `t` has the window, the firmware, the bring-up DMA engine, the resource table, the scratch word,
-- the counter snapshot, the interrupt mask and the ring descriptions of `s`.
pub record SameConfig (s t : VelocitorState) : Type 0 where
  pub win : t.win ≡ s.win
  pub fw : t.fw ≡ s.fw
  pub dma : t.dma ≡ s.dma
  pub rsc : t.rsc ≡ s.rsc
  pub scratch : t.scratch ≡ s.scratch
  pub snap : t.cnt_snap ≡ s.cnt_snap
  pub mask : t.irq_mask ≡ s.irq_mask
  pub select : t.vq_select ≡ s.vq_select
  pub rings : (q : ℕ) → SameRing (s.vq q) (t.vq q)

SameRing-refl : (v : VelocitorQueue) → SameRing v v
SameRing-refl v = record {
  num = refl;
  enable = refl;
  desc_lo = refl;
  desc_hi = refl;
  avail_lo = refl;
  avail_hi = refl;
  used_lo = refl;
  used_hi = refl;
  msix_vector = refl;
  notifyid = refl;
  vdev_off = refl;
}

SameRing-trans : (u v w : VelocitorQueue) → SameRing u v → SameRing v w → SameRing u w
SameRing-trans u v w f g = record {
  num = g.num ∙ f.num;
  enable = g.enable ∙ f.enable;
  desc_lo = g.desc_lo ∙ f.desc_lo;
  desc_hi = g.desc_hi ∙ f.desc_hi;
  avail_lo = g.avail_lo ∙ f.avail_lo;
  avail_hi = g.avail_hi ∙ f.avail_hi;
  used_lo = g.used_lo ∙ f.used_lo;
  used_hi = g.used_hi ∙ f.used_hi;
  msix_vector = g.msix_vector ∙ f.msix_vector;
  notifyid = g.notifyid ∙ f.notifyid;
  vdev_off = g.vdev_off ∙ f.vdev_off;
}

SameConfig-trans : (s t u : VelocitorState) → SameConfig s t → SameConfig t u → SameConfig s u
SameConfig-trans s t u f g = record {
  win = g.win ∙ f.win;
  fw = g.fw ∙ f.fw;
  dma = g.dma ∙ f.dma;
  rsc = g.rsc ∙ f.rsc;
  scratch = g.scratch ∙ f.scratch;
  snap = g.snap ∙ f.snap;
  mask = g.mask ∙ f.mask;
  select = g.select ∙ f.select;
  rings = λ q. SameRing-trans (s.vq q) (t.vq q) (u.vq q) (f.rings q) (g.rings q);
}

record Config : Type 0 where
  win : Window
  fw : Firmware
  dma : Dma
  rsc : Rsc
  scratch : ℕ
  snap : ℕ → ℕ
  mask : ℕ
  select : ℕ
  vq : ℕ → VelocitorQueue

abbrev config : VelocitorState → Config
config s = record {
  win = s.win;
  fw = s.fw;
  dma = s.dma;
  rsc = s.rsc;
  scratch = s.scratch;
  snap = s.cnt_snap;
  mask = s.irq_mask;
  select = s.vq_select;
  vq = s.vq;
}

-- A move of nothing of this.
unmoved : (s t : VelocitorState) → config t ≡ config s → SameConfig s t
unmoved s t e = record {
  win = ap (λ (c : Config). c.win) e;
  fw = ap (λ (c : Config). c.fw) e;
  dma = ap (λ (c : Config). c.dma) e;
  rsc = ap (λ (c : Config). c.rsc) e;
  scratch = ap (λ (c : Config). c.scratch) e;
  snap = ap (λ (c : Config). c.snap) e;
  mask = ap (λ (c : Config). c.mask) e;
  select = ap (λ (c : Config). c.select) e;
  rings = λ q.
      subst (λ (f : ℕ → VelocitorQueue). SameRing (s.vq q) (f q))
        (sym (ap (λ (c : Config). c.vq) e)) (SameRing-refl (s.vq q));
}

set_vq-SameConfig :
    (q : ℕ) (v : VelocitorQueue) (s : VelocitorState)
    → SameRing (s.vq q) v
    → SameConfig s (set_vq q v s)
set_vq-SameConfig q v s same = record {
  win = refl;
  fw = refl;
  dma = refl;
  rsc = refl;
  scratch = refl;
  snap = refl;
  mask = refl;
  select = refl;
  rings = λ p.
      dchoose (SameRing (s.vq p)) (p == q)
        (λ e. subst (λ (i : ℕ). SameRing (s.vq i) v) (sym (==→eq p q e)) same)
        (λ _. SameRing-refl (s.vq p));
}

error_qualify-SameConfig :
    (env : Env) (code info id handle : ℕ) (s : VelocitorState)
    → SameConfig s (error_qualify env code info id handle s)
error_qualify-SameConfig env code info id handle s =
    error_any env (SameConfig s) code info id handle s (λ e mem. unmoved s _ refl)

SameConfig-CopiesIn : CopiesIn SameConfig
SameConfig-CopiesIn at bytes s inside = unmoved s _ refl

module _ (env : Env) where
  SameConfig-IsFrame : IsFrame env SameConfig
  SameConfig-IsFrame = record {
    refl_R = λ s. unmoved s s refl;
    trans_R = SameConfig-trans;
    count_R = λ i n s. unmoved s _ refl;
    raise_R = λ v s. raise_any (SameConfig s) v s (λ c status sent. unmoved s _ refl);
    error_R = error_qualify-SameConfig env;
    trace_R = λ level engine seq m s.
        trace_any env (SameConfig s) level engine seq m s (λ mem. unmoved s _ refl);
    access_R = λ a s near. unmoved s _ refl;
    ring_R = set_vq-SameConfig;
  }

  alloc_block-SameConfig :
      (req : AllocReq) (s : VelocitorState) → SameConfig s (alloc_block env req s).1
  unfolding alloc_block alloc_sized error_set
  alloc_block-SameConfig req s =
      let P = λ (r : Result AllocResp × VelocitorState). SameConfig s r.1 in
      choose P (not (req.node == node_any) && leb nodes req.node) (unmoved s s refl) (
        choose P ((req.size == 0) || ltb mem_size req.size) (unmoved s s refl) (
          choose P (test_bit s.err_inject Hw.err_inject_alloc_fail)
            (SameConfig-trans s _ _ (unmoved s _ refl) (error_qualify-SameConfig env _ _ _ _ _))
            (choose P
              (ltb max_handles s.next_handle
                || not (alloc_pick_node s.heap req.node (round_up req.size)).0)
              (error_qualify-SameConfig env _ _ _ _ s) (unmoved s _ refl))))

  SameConfig-ServesControl : ServesControl env SameConfig
  unfolding free_block
  SameConfig-ServesControl = record {
    alloc_R = alloc_block-SameConfig;
    free_R = λ handle s.
        choose (λ (r : ℕ × VelocitorState). SameConfig s r.1) (bad_handle s.heap handle)
          (error_qualify-SameConfig env _ _ _ _ s) (unmoved s _ refl);
    announce_R = λ s. unmoved s _ refl;
  }

-- However long the queues are served, and whatever the requests in them ask for: the window, the
-- firmware state with its generation, the bring-up DMA engine, the resource table, the scratch word,
-- the counter snapshot, the interrupt mask, the selected queue, and all that the driver described of
-- every ring stay as they were.
pub vq_service-SameConfig :
    (env : Env) (fuel : ℕ) (s : VelocitorState) → SameConfig s (vq_service env fuel s)
vq_service-SameConfig env fuel s =
    vq_service-R (SameConfig-IsFrame env) SameConfig-CopiesIn (SameConfig-ServesControl env)
      (λ t. unmoved t _ refl) fuel s
