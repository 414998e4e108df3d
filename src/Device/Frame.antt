-- ===== src/Device/Frame.antt =====
-- How the handlers of qemu-device/velocitor.c move the state, proved once for every relation that
-- the primitive moves respect: an interface that the theorems about the queues are clients of.
pub mod Planes
pub mod Service
pub mod Publish
use linux_pci_driver.Common.{
  ℕ, ◌+◌, ◌-◌, ◌*◌, ◌/◌, ◌%◌, ◌^◌, ◌≤◌, ◌<◌, ltb, leb, ◌==◌, if◌then◌else◌, Bool, true, false, not,
  ◌&&◌, ◌||◌, Option, none, some, List, ◌≡◌, refl, store, take, Bool-cases, inl, inr, ◌⊎◌, arith,
  choose, dchoose, length,
}
use linux_pci_driver.Hw.{dma_bits}
use linux_pci_driver.Hw.Reg.{cnt_dma_rd, cnt_dma_wr, cnt_bytes_rd_lo, cnt_bytes_wr_lo, cnt_desc}
use linux_pci_driver.Device.State.{
  VelocitorState, VelocitorQueue, Env, Access, Message, dma_read, dma_write, count, set_vq,
}
use linux_pci_driver.Device.Irq.{raise}
use linux_pci_driver.Device.Trace.{trace}
use linux_pci_driver.Device.Error.{error_qualify, error_set}
use linux_pci_driver.Device.Bus.{note_access, pci_read, pci_read_mem, pci_write}
use linux_pci_driver.Device.Monad.{
  M, after, after_failure, on_failure, ◌>>=◌, ◌>>◌, pure, stop, modify, get, lift, attempt,
  when_else,
}
use linux_pci_driver.Device.Rsc.{rsc_fetch, rsc_read32, rsc_address}
use linux_pci_driver.Device.Queue.{
  Desc, out_of_reach, width_error, bad_desc, host_read, host_write, vq_desc, next_head, vq_pop_head,
  vq_pop, vq_push, refresh_negotiation, put_gfeatures, put_vstatus, advance, add64, count_read,
  count_write,
}

-- The transfers that the 42-bit trap lets through: they start within reach, or wrap 64 bits.
abbrev pub Reaches : ℕ → ℕ → Type 0
Reaches iova len = (iova ≤ 2 ^ dma_bits) ⊎ (2 ^ 64 ≤ iova + len)

abbrev pub InReach : Access → Type 0
InReach (dma_read iova len) = Reaches iova len
InReach (dma_write iova len bytes) = Reaches iova len

-- All that the driver described of a ring: a queue that runs changes the rest.
pub record SameRing (v w : VelocitorQueue) : Type 0 where
  pub num : w.num ≡ v.num
  pub enable : w.enable ≡ v.enable
  pub desc_lo : w.desc_lo ≡ v.desc_lo
  pub desc_hi : w.desc_hi ≡ v.desc_hi
  pub avail_lo : w.avail_lo ≡ v.avail_lo
  pub avail_hi : w.avail_hi ≡ v.avail_hi
  pub used_lo : w.used_lo ≡ v.used_lo
  pub used_hi : w.used_hi ≡ v.used_hi
  pub msix_vector : w.msix_vector ≡ v.msix_vector
  pub notifyid : w.notifyid ≡ v.notifyid
  pub vdev_off : w.vdev_off ≡ v.vdev_off

pub record IsFrame (env : Env) (R : VelocitorState → VelocitorState → Type 0) : Type 0 where
  pub refl_R : (s : VelocitorState) → R s s
  pub trans_R : (s t u : VelocitorState) → R s t → R t u → R s u
  pub count_R : (i n : ℕ) (s : VelocitorState) → R s (count i n s)
  pub raise_R : (v : ℕ) (s : VelocitorState) → R s (raise v s)
  pub error_R :
      (code info id handle : ℕ) (s : VelocitorState) → R s (error_qualify env code info id handle s)
  pub trace_R :
      (level engine seq : ℕ) (m : Message) (s : VelocitorState)
      → R s (trace env level engine seq m s)
  pub access_R : (a : Access) (s : VelocitorState) → InReach a → R s (note_access a s)
  pub ring_R :
      (q : ℕ) (v : VelocitorQueue) (s : VelocitorState) → SameRing (s.vq q) v → R s (set_vq q v s)

out_of_reach_lem : (iova len : ℕ) → out_of_reach iova len ≡ false → Reaches iova len
unfolding out_of_reach
out_of_reach_lem iova len h = ground arith

-- All that a handler can do is in `R`.
pub record Holds (R : VelocitorState → VelocitorState → Type 0) {A : Type 0} (m : M A)
    : Type 0 where
  pub apply : (s : VelocitorState) → R s (m s).1

module _ {env : Env} {R : VelocitorState → VelocitorState → Type 0} (F : IsFrame env R) where
  open F use {refl_R, trans_R, count_R, raise_R, error_R, trace_R, access_R, ring_R}

  pub width_error-R : (q iova : ℕ) (s : VelocitorState) → R s (width_error env q iova s)
  unfolding width_error
  width_error-R q iova s = trans_R _ _ _ (error_R _ _ _ _ s) (raise_R _ _)

  pub bad_desc-R : (q info : ℕ) (s : VelocitorState) → R s (bad_desc env q info s)
  unfolding bad_desc
  bad_desc-R q info s = trans_R _ _ _ (error_R _ _ _ _ s) (raise_R _ _)

  pub error_set-R : (code info : ℕ) (s : VelocitorState) → R s (error_set env code info s)
  unfolding error_set
  error_set-R code info s = error_R _ _ _ _ s

  count_two : (i j n : ℕ) (s : VelocitorState) → R s (count j n (count i 1 s))
  count_two i j n s = trans_R _ _ _ (count_R i 1 s) (count_R j n _)

  after-R :
      {A B : Type 0} (s : VelocitorState) (r : Option A × VelocitorState) (f : A → M B)
      → R s r.1
      → ((a : A) → Holds R (f a))
      → R s (after r f).1
  unfolding after
  after-R s (none, t) f h k = h
  after-R s (some a, t) f h k = trans_R s t (f a t).1 h ((k a).apply t)

  -- The moves of the monad.
  pub bind-Holds :
      {A B : Type 0} {m : M A} {f : A → M B}
      → Holds R m
      → ((a : A) → Holds R (f a))
      → Holds R (m >>= f)
  unfolding ◌>>=◌
  bind-Holds {m} {f} h k = record { apply = λ s. after-R s (m s) f (h.apply s) k }

  pub pure-Holds : {A : Type 0} (a : A) → Holds R (pure a)
  unfolding pure
  pure-Holds a = record { apply = refl_R }

  pub stop-Holds : {A : Type 0} → Holds R (stop {A = A})
  unfolding stop
  stop-Holds = record { apply = refl_R }

  pub get-Holds : Holds R get
  unfolding get
  get-Holds = record { apply = refl_R }

  pub modify-Holds :
      {f : VelocitorState → VelocitorState}
      → ((s : VelocitorState) → R s (f s))
      → Holds R (modify f)
  unfolding modify
  modify-Holds h = record { apply = h }

  pub lift-Holds :
      {A : Type 0} (f : VelocitorState → A × VelocitorState)
      → ((s : VelocitorState) → R s (f s).1)
      → Holds R (lift f)
  unfolding lift
  lift-Holds f h = record { apply = h }

  pub attempt-Holds : {A : Type 0} {m : M A} → Holds R m → Holds R (attempt m)
  unfolding attempt
  attempt-Holds h = record { apply = h.apply }

  pub when_else-Holds :
      {A : Type 0} (b : Bool) (m n : M A) → Holds R m → Holds R n → Holds R (when_else b m n)
  unfolding when_else
  when_else-Holds true m n h k = h
  when_else-Holds false m n h k = k

  after_failure-R :
      {A : Type 0} (s : VelocitorState) (r : Option A × VelocitorState)
      (f : VelocitorState → VelocitorState)
      → R s r.1
      → ((t : VelocitorState) → R t (f t))
      → R s (after_failure r f).1
  unfolding after_failure
  after_failure-R s (none, t) f h k = trans_R s t (f t) h (k t)
  after_failure-R s (some a, t) f h k = h

  pub on_failure-Holds :
      {A : Type 0} {m : M A} {f : VelocitorState → VelocitorState}
      → Holds R m
      → ((t : VelocitorState) → R t (f t))
      → Holds R (on_failure m f)
  unfolding on_failure
  on_failure-Holds {m} {f} h k = record { apply = λ s. after_failure-R s (m s) f (h.apply s) k }

  pub host_read-Holds : (q iova len : ℕ) → Holds R (host_read env q iova len)
  unfolding host_read
  host_read-Holds q iova len = record {
    apply = λ s.
        let far = width_error-R q iova s in
        let step = λ (near : Reaches iova len). access_R (dma_read iova len) s near in
        dchoose (λ (r : Option (List ℕ) × VelocitorState). R s r.1) (out_of_reach iova len)
          (λ _. far)
          λ near.
            choose (λ (r : Option (List ℕ) × VelocitorState). R s r.1)
              (not (env.pci_dma_read s.accesses iova len).0)
              (trans_R _ _ _ (step (out_of_reach_lem iova len near)) (width_error-R q iova _))
              (trans_R _ _ _ (step (out_of_reach_lem iova len near))
                (count_two cnt_dma_rd cnt_bytes_rd_lo len _));
  }

  pub host_write-Holds :
      (q iova len : ℕ) (bytes : List ℕ) → Holds R (host_write env q iova len bytes)
  unfolding host_write
  host_write-Holds q iova len bytes = record {
    apply = λ s.
        let far = width_error-R q iova s in
        let step = λ (near : Reaches iova len). access_R (dma_write iova len bytes) s near in
        dchoose (λ (r : Option (Unit {0}) × VelocitorState). R s r.1) (out_of_reach iova len)
          (λ _. far)
          λ near.
            choose (λ (r : Option (Unit {0}) × VelocitorState). R s r.1)
              (not (env.pci_dma_write s.accesses iova len bytes))
              (trans_R _ _ _ (step (out_of_reach_lem iova len near)) (width_error-R q iova _))
              (trans_R _ _ _ (step (out_of_reach_lem iova len near))
                (count_two cnt_dma_wr cnt_bytes_wr_lo len _));
  }

  pub vq_desc-Holds : (q index : ℕ) → Holds R (vq_desc env q index)
  unfolding vq_desc
  vq_desc-Holds q index = bind-Holds get-Holds λ s.
      when_else-Holds _ _ _ (bind-Holds (modify-Holds (bad_desc-R q index)) (λ _. stop-Holds))
        (bind-Holds (host_read-Holds _ _ _) (λ b. pure-Holds _))

  pub next_head-Holds : (q : ℕ) → Holds R (next_head env q)
  unfolding next_head
  next_head-Holds q = bind-Holds get-Holds λ s. bind-Holds (host_read-Holds _ _ _) λ raw.
      bind-Holds get-Holds λ t.
        when_else-Holds _ _ _ stop-Holds (bind-Holds (host_read-Holds _ _ _) (λ b. pure-Holds _))

  advance-R : (q : ℕ) (s : VelocitorState) → R s (advance env q s)
  advance-R q s = trans_R _ _ _ (ring_R q _ s (omega arith)) (count_R cnt_desc 1 _)

  pub vq_pop_head-Holds : (q : ℕ) → Holds R (vq_pop_head env q)
  unfolding vq_pop_head
  vq_pop_head-Holds q =
      bind-Holds (next_head-Holds q)
        λ head. bind-Holds (modify-Holds (advance-R q)) (λ _. pure-Holds _)

  pub vq_pop-Holds : (q : ℕ) → Holds R (vq_pop env q)
  unfolding vq_pop
  vq_pop-Holds q = bind-Holds (next_head-Holds q) λ head. bind-Holds get-Holds λ s.
      when_else-Holds _ _ _ (bind-Holds (modify-Holds (bad_desc-R q head)) (λ _. stop-Holds)) (
        bind-Holds (host_read-Holds _ _ _)
          λ b. bind-Holds (modify-Holds (advance-R q)) (λ _. pure-Holds _))

  pub vq_push-Holds : (q head len : ℕ) → Holds R (vq_push env q head len)
  unfolding vq_push
  vq_push-Holds q head len = bind-Holds get-Holds λ s. bind-Holds (host_read-Holds _ _ _) λ raw.
      bind-Holds get-Holds λ t.
        bind-Holds (host_write-Holds _ _ _ _)
          λ _. bind-Holds (host_write-Holds _ _ _ _) (λ _. modify-Holds (raise_R _))

  rsc_fetch-R : (addr : ℕ) (s : VelocitorState) → addr ≤ 2 ^ dma_bits → R s (rsc_fetch env addr s).1
  unfolding rsc_fetch
  rsc_fetch-R addr s near =
      let step = access_R (dma_read addr 4) s (inl near) in
      choose (λ (r : Option ℕ × VelocitorState). R s r.1) (env.pci_dma_read s.accesses addr 4).0
        step (trans_R _ _ _ step (error_set-R _ _ _))

  pub rsc_read32-Holds : (off : ℕ) → Holds R (rsc_read32 env off)
  unfolding rsc_read32
  rsc_read32-Holds off = record {
    apply = λ s.
        choose (λ (r : Option ℕ × VelocitorState). R s r.1) (ltb s.rsc_len (off + 4))
          (error_set-R _ _ s)
          (dchoose (λ (r : Option ℕ × VelocitorState). R s r.1)
            (leb (2 ^ dma_bits) (rsc_address off s)) (λ _. error_set-R _ _ s)
            (λ near. rsc_fetch-R (rsc_address off s) s (ground arith)));
  }

  put_gfeatures-R :
      (q : ℕ) (s : VelocitorState) (r : Option ℕ × VelocitorState)
      → R s r.1
      → R s (put_gfeatures env q r)
  put_gfeatures-R q s (none, t) h = h
  put_gfeatures-R q s (some w, t) h = trans_R _ _ _ h (ring_R q _ t (omega arith))

  put_vstatus-R :
      (q : ℕ) (s : VelocitorState) (r : Option ℕ × VelocitorState)
      → R s r.1
      → R s (put_vstatus env q r)
  put_vstatus-R q s (none, t) h = h
  put_vstatus-R q s (some w, t) h = trans_R _ _ _ h (ring_R q _ t (omega arith))

  pub refresh_negotiation-R : (q : ℕ) (s : VelocitorState) → R s (refresh_negotiation env q s)
  unfolding refresh_negotiation
  refresh_negotiation-R q s =
      choose (λ (t : VelocitorState). R s t) ((s.rsc_valid == 0) || ((s.vq q).vdev_off == 0))
        (refl_R s)
        (trans_R _ _ _ (put_gfeatures-R q s _ ((rsc_read32-Holds _).apply s))
          (put_vstatus-R q _ _ ((rsc_read32-Holds _).apply _)))
