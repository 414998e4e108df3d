-- ===== src/Runtime/Library/Owned.antt =====
-- Who owns what the library of runtime/src allocates.
use linux_pci_driver.Common.{
  ℕ, ◌+◌, ◌<◌, Bool, true, not, ◌≡◌, ◌≢◌, ◌⊎◌, refl, sym, ap, ◌∙◌, arith, inl, inr, Option, none,
  some, update, update-same, update-other, choose, ℕ_discrete,
}
use linux_pci_driver.Device.Allocator.{AllocReq}
use linux_pci_driver.Driver.Cdev.{IoctlHandle}
use linux_pci_driver.Runtime.Scan.{DeviceInfo}
use linux_pci_driver.Runtime.Library.{
  System, State, Given, VelocitorDevice, VelocitorHandle, no_handle, with_answer, answered,
  new_handle, allocated, alloc_on, velocitor_alloc, velocitor_free,
}

-- A call of `velocitor_alloc` that gives 0 leaves one new handle; one that gives an errno leaves none.
-- Neither touches the devices.
abbrev pub Owned : (sys : System) → ℕ → AllocReq → State sys → Given sys → Type 0
Owned sys device req p ((err, some (some h)), q) =
    (err ≡ 0)
    × (h ≡ p.fresh)
    × (q.devices ≡ p.devices)
    × ((x : IoctlHandle) × ((i : ℕ)
          → q.handles i
            ≡ update p.handles h (some (record { alloc = req; handle = x; device = device })) i))
Owned sys device req p ((err, out), q) =
    (err ≢ 0) × (q.devices ≡ p.devices) × ((i : ℕ) → q.handles i ≡ p.handles i)

-- Two writes of a cell are the second.
update-update {ℓ} :
    {A : Type ℓ} (f : ℕ → A) (n : ℕ) (a b : A) (i : ℕ)
    → update (update f n a) n b i ≡ update f n b i
update-update f n a b i = elim (ℕ_discrete i n) [
  | yes mine ↦
      ap (update (update f n a) n b) mine
      ∙ update-same (update f n a) n b
      ∙ sym (update-same f n b)
      ∙ ap (update f n b) (sym mine)
  | no other ↦
      update-other (update f n a) n b i other
      ∙ update-other f n a i other
      ∙ sym (update-other f n b i other)
]

update-none {ℓ} :
    {A : Type ℓ} (f : ℕ → Option A) (n : ℕ) (i : ℕ) → f n ≡ none → update f n none i ≡ f i
update-none f n i free = elim (ℕ_discrete i n) [
  | yes mine ↦ ap (update f n none) mine ∙ update-same f n none ∙ sym free ∙ ap f (sym mine)
  | no other ↦ update-other f n none i other
]

module _ (sys : System) (device : ℕ) (req : AllocReq) (p : State sys) where
  granted_cell :
      (x : IoctlHandle) (i : ℕ)
      → answered (new_handle sys device req p).handles p.fresh x i
        ≡ update p.handles p.fresh (some (record { alloc = req; handle = x; device = device })) i
  granted_cell x i =
      let first : Option VelocitorHandle =
        some (record { alloc = req; handle = no_handle; device = device }) in
      ap (λ c. update (new_handle sys device req p).handles p.fresh (with_answer x c) i)
        (update-same p.handles p.fresh first)
      ∙ update-update p.handles p.fresh first _ i

  allocated-Owned :
      (r : (ℕ ⊎ IoctlHandle) × sys.Kernel)
      → p.handles p.fresh ≡ none
      → ((err : ℕ) → r.0 ≡ inl err → 0 < err)
      → Owned sys device req p (allocated sys p.fresh r (new_handle sys device req p))
  allocated-Owned (inl err, k) free pos =
      let lt = pos err refl in
      (
        (λ z. omega (arith, lt, z)),
        refl,
        (λ i. update-update p.handles p.fresh _ none i ∙ update-none p.handles p.fresh i free),
      )
  allocated-Owned (inr x, k) free pos = (refl, refl, refl, (x, granted_cell x))

  alloc_on-Owned :
      (memory handle : Bool) (fd : Option ℕ)
      → p.handles p.fresh ≡ none
      → Owned sys device req p (alloc_on sys memory device fd req handle p)
  alloc_on-Owned memory handle none free = ((λ z. omega (arith, z)), refl, (λ i. refl))
  alloc_on-Owned memory handle (some fd) free =
      let P = Owned sys device req p in
      choose P (not handle) ((λ z. omega (arith, z)), refl, (λ i. refl))
        (choose P (not memory) ((λ z. omega (arith, z)), refl, (λ i. refl))
          (allocated-Owned (sys.ioctl_alloc fd req p.kernel) free
            (λ err e. sys.alloc_errno fd req p.kernel err e)))

-- On an open device, when the next address is not allocated, `velocitor_alloc` comes back: with 0 and
-- a new handle at that address, which remembers the request and the device, every other handle being
-- as it was; or with an errno and every handle as it was, so that what `calloc` gave is freed again.
-- The devices stay as they are in both cases.
pub velocitor_alloc-Owned :
    (sys : System) (memory handle : Bool) (device size node type : ℕ) (p : State sys)
    (d : VelocitorDevice)
    → p.devices device ≡ some d
    → p.handles p.fresh ≡ none
    → (g : Given sys) × (velocitor_alloc sys memory (some device) size node type handle p ≡ some g)
      × Owned sys device (record { size = size; dtype = type; node = node }) p g
unfolding velocitor_alloc
velocitor_alloc-Owned sys memory handle device size node type p d is free =
    let req : AllocReq = record { size = size; dtype = type; node = node } in
    (
      alloc_on sys memory device d.fd req handle p,
      rw (is, velocitor_alloc) refl,
      alloc_on-Owned sys device req p memory handle d.fd free,
    )

-- When the kernel grants an ALLOC on an open device, `velocitor_free` of the handle that
-- `velocitor_alloc` gives hands the kernel's own handle back and gives its answer, and the process has
-- the handles that it had before: the next address was not allocated.
pub alloc-free :
    (sys : System) (device size node type fd : ℕ) (info : DeviceInfo) (p : State sys)
    (x : IoctlHandle) (k : sys.Kernel)
    → p.devices device ≡ some (record { fd = some fd; info = info })
    → p.handles p.fresh ≡ none
    → sys.ioctl_alloc fd (record { size = size; dtype = type; node = node }) p.kernel ≡ (inr x, k)
    → (q : State sys) × (r : State sys) × (velocitor_alloc sys true
          (some device)
          size
          node
          type
          true
          p
        ≡ some ((0, some (some p.fresh)), q))
      × (velocitor_free sys (some p.fresh) q ≡ some ((sys.ioctl_free fd x k).0, r))
      × (r.kernel ≡ (sys.ioctl_free fd x k).1)
      × ((i : ℕ) → r.handles i ≡ p.handles i)
unfolding velocitor_alloc velocitor_free
alloc-free sys device size node type fd info p x k is free granted =
    let req : AllocReq = record { size = size; dtype = type; node = node } in
    let h : VelocitorHandle = record { alloc = req; handle = x; device = device } in
    let held = answered (new_handle sys device req p).handles p.fresh x in
    let q : State sys = record p { kernel = k; handles = held; fresh = p.fresh + 1 } in
    let got : held p.fresh ≡ some h =
      granted_cell sys device req p x p.fresh ∙ update-same p.handles p.fresh (some h) in
    (
      q,
      record q { kernel = (sys.ioctl_free fd x k).1; handles = update held p.fresh none },
      rw (is, velocitor_alloc)
          (ap (λ r. some (allocated sys p.fresh r (new_handle sys device req p))) granted),
      rw (got, velocitor_free) (rw is refl),
      refl,
      λ i.
          update-update (new_handle sys device req p).handles p.fresh _ none i
          ∙ update-update p.handles p.fresh _ none i
          ∙ update-none p.handles p.fresh i free,
    )
