-- ===== src/Device/Bus/Transfer.antt =====
-- A transfer of the bring-up DMA engine of qemu-device/velocitor.c into device memory.
use linux_pci_driver.Common.{
  ℕ, zero, suc, ◌+◌, ◌^◌, ◌≤◌, ◌<◌, ltb, leb, ◌==◌, if◌then◌else◌, Bool, true, List, [], ◌∷◌, ◌≡◌,
  refl, ap, subst, arith, store, load, take, length, dchoose,
}
use linux_pci_driver.Hw.{dma_bits, mem_size, dbg_dma_h2d, dma_status_done}
use linux_pci_driver.Device.State.{VelocitorState, Env}
use linux_pci_driver.Device.Bus.{wide, pci_read, pci_read_mem, dma_h2d, dma_d2h, dma_run}

take_all : (l : List ℕ) → take (length l) l ≡ l
take_all [] = refl
take_all (x ∷ xs) = ap (λ (t : List ℕ). x ∷ t) (take_all xs)

-- What a load sees is decided by the bytes that it reads.
pub load_same :
    (m k : ℕ → ℕ) (at n : ℕ) → ((a : ℕ) → at ≤ a → m a ≡ k a) → load m at n ≡ load k at n
unfolding load
load_same m k at zero same = refl
load_same m k at (suc n) same =
    rw (same at (omega arith), load_same m k (at + 1) n (λ a le. same a (omega arith))) refl

store_head : (m : ℕ → ℕ) (at x : ℕ) (xs : List ℕ) → store m at (x ∷ xs) at ≡ x
unfolding store
store_head m at x xs =
    dchoose (λ (b : ℕ). b ≡ x) (at == at) (λ _. refl) (λ e. absurd (ground arith))

store_tail :
    (m : ℕ → ℕ) (at x : ℕ) (xs : List ℕ) (a : ℕ)
    → at + 1 ≤ a
    → store m at (x ∷ xs) a ≡ store m (at + 1) xs a
unfolding store
store_tail m at x xs a le =
    dchoose (λ (b : ℕ). b ≡ store m (at + 1) xs a) (a == at) (λ e. absurd (ground arith))
      (λ _. refl)

pub load-store : (m : ℕ → ℕ) (at : ℕ) (l : List ℕ) → load (store m at l) at (length l) ≡ l
unfolding load
load-store m at [] = refl
load-store m at (x ∷ xs) =
    rw
      (
        store_head m at x xs,
        load_same (store m at (x ∷ xs)) (store m (at + 1) xs) (at + 1) (length xs)
            (store_tail m at x xs),
        load-store m (at + 1) xs,
      )
      refl

stored :
    (m : ℕ → ℕ) (at n : ℕ) (bytes : List ℕ)
    → length bytes ≡ n
    → load (store m at (take n bytes)) at n ≡ bytes
stored m at n bytes whole =
    subst (λ (k : ℕ). load (store m at (take k bytes)) at k ≡ bytes) whole
      (rw (take_all bytes) (load-store m at bytes))

-- A transfer from the host that starts below 2^42, stays within device memory and is carried out by
-- the bus in full ends with the status DONE and with the bytes of the host at the device address.
pub dma_run_h2d :
    (env : Env) (bytes : List ℕ) (s : VelocitorState)
    → s.dma_ctl ≡ dbg_dma_h2d
    → wide s.dma_addr_hi s.dma_addr_lo < 2 ^ dma_bits
    → s.dma_dev + s.dma_len ≤ mem_size
    → length bytes ≡ s.dma_len
    → env.pci_dma_read s.accesses (wide s.dma_addr_hi s.dma_addr_lo) s.dma_len ≡ (true, bytes)
    → ((dma_run env s).dma_status ≡ dma_status_done)
      × (load (dma_run env s).mem s.dma_dev s.dma_len ≡ bytes)
unfolding dma_run dma_h2d pci_read_mem pci_read
dma_run_h2d env bytes s ctl near fits whole answer =
    let P = λ (t : VelocitorState).
      (t.dma_status ≡ dma_status_done) × (load t.mem s.dma_dev s.dma_len ≡ bytes) in
    let iova = wide s.dma_addr_hi s.dma_addr_lo in
    let Q =
      λ (r : Bool × VelocitorState). (r.0 ≡ true) × (load r.1.mem s.dma_dev s.dma_len ≡ bytes) in
    let moved : Q (if s.dma_ctl == dbg_dma_h2d then dma_h2d env iova s else dma_d2h env iova s) =
      dchoose Q (s.dma_ctl == dbg_dma_h2d)
        (λ _. rw answer (refl, stored s.mem s.dma_dev s.dma_len bytes whole))
        (λ e. absurd (ground arith)) in
    dchoose P (leb (2 ^ dma_bits) iova) (λ e. absurd (ground arith))
      (λ _.
        dchoose P (ltb mem_size (s.dma_dev + s.dma_len)) (λ e. absurd (ground arith))
          (λ _.
            dchoose P
              (if s.dma_ctl == dbg_dma_h2d then dma_h2d env iova s else dma_d2h env iova s).0
              (λ _. (refl, moved.1)) (λ e. absurd (ground (arith, moved.0)))))
