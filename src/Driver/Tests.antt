-- ===== src/Driver/Tests.antt =====
-- Concrete surroundings of the driver of module/src: an IDR with room for one entry, a control plane
-- with one transaction, and a resource table in host memory.
pub mod Witnesses
pub mod Transactions
pub mod Buffers
pub mod Registers
pub mod Slots
pub mod Ioctls
use linux_pci_driver.Common.{
  ℕ, zero, suc, ◌+◌, ◌-◌, ◌*◌, ◌<◌, ◌≡◌, ◌≢◌, refl, ap, sym, arith, Bool, true, false, ◌⊎◌, inl,
  inr, Option, none, some, List, [], ◌∷◌, ◌++◌, load, to_le16, to_le32, update,
}
use linux_pci_driver.Hw as Hw
use linux_pci_driver.Device.State.{VelocitorState, Env}
use linux_pci_driver.Device.Tests.{bus, running}
use linux_pci_driver.Driver.Idr.{Idr}
use linux_pci_driver.Driver.State.{VelocitorDev, VelocitorVring}
use linux_pci_driver.Driver.Ctrl.{Ctrl, Transaction, State, transaction_alloc, set_cell}
use linux_pci_driver.Mkfw.{Image}
use linux_pci_driver.Mkfw.Rings.{notified}

abbrev pub one_find : Option ℕ → ℕ → Option ℕ
one_find t zero = none
one_find t (suc zero) = t
one_find t (suc (suc k)) = none

abbrev pub one_remove : Option ℕ → ℕ → Option ℕ
one_remove t zero = t
one_remove t (suc zero) = none
one_remove t (suc (suc k)) = t

abbrev pub one_next : Option ℕ → Option (ℕ × ℕ)
one_next none = none
one_next (some a) = some (1, a)

-- ENOSPC when the entry is taken.
abbrev pub one_alloc : Option ℕ → ℕ → ℕ ⊎ (ℕ × Option ℕ)
one_alloc none a = inr (1, some a)
one_alloc (some b) a = inl 28

abbrev pub one_entries : Option ℕ → ℕ
one_entries none = 0
one_entries (some a) = 1

pub removed : (t : Option ℕ) (k : ℕ) → one_find (one_remove t k) k ≡ none
removed t zero = refl
removed t (suc zero) = refl
removed t (suc (suc k)) = refl

pub others : (t : Option ℕ) (k j : ℕ) → j ≢ k → one_find (one_remove t k) j ≡ one_find t j
others t k zero other = refl
others t zero (suc zero) other = refl
others t (suc zero) (suc zero) other = absurd (other refl)
others t (suc (suc k)) (suc zero) other = refl
others t k (suc (suc j)) other = refl

pub fewer :
    (t : Option ℕ) (k a : ℕ) → one_find t k ≡ some a → one_entries (one_remove t k) < one_entries t
fewer t zero a e = absurd (cc e)
fewer none (suc zero) a e = absurd (cc e)
fewer (some b) (suc zero) a e = omega arith
fewer t (suc (suc k)) a e = absurd (cc e)

pub next_some : (t : Option ℕ) (k a : ℕ) → one_next t ≡ some (k, a) → one_find t k ≡ some a
next_some none k a e = absurd (cc e)
next_some (some b) k a e = ground arith

pub next_none : (t : Option ℕ) (k : ℕ) → one_next t ≡ none → one_find t k ≡ none
next_none none zero e = refl
next_none none (suc zero) e = refl
next_none none (suc (suc k)) e = refl
next_none (some b) k e = absurd (cc e)

got :
    (t t' : Option ℕ) (a k : ℕ) → one_alloc t a ≡ inr (k, t') → (t ≡ none) × (k ≡ 1) × (t' ≡ some a)
got none t' a k e = (refl, cc e, cc e)
got (some b) t' a k e = absurd (cc e)

pub was_free : (t t' : Option ℕ) (a k : ℕ) → one_alloc t a ≡ inr (k, t') → one_find t k ≡ none
was_free t t' a k e = let (empty, at, _) = got t t' a k e in rw (empty, at) refl

pub is_there : (t t' : Option ℕ) (a k : ℕ) → one_alloc t a ≡ inr (k, t') → one_find t' k ≡ some a
is_there t t' a k e = let (_, at, now) = got t t' a k e in rw (now, at) refl

pub as_before :
    (t t' : Option ℕ) (a k j : ℕ)
    → one_alloc t a ≡ inr (k, t')
    → j ≢ k
    → one_find t' j ≡ one_find t j
as_before t t' a k zero e other = refl
as_before t t' a k (suc zero) e other = let (_, at, _) = got t t' a k e in absurd (other (sym at))
as_before t t' a k (suc (suc j)) e other = refl

abbrev pub one_idr : Idr
one_idr = record {
  Table = Option ℕ;
  idr_find = one_find;
  idr_remove = one_remove;
  idr_get_next = one_next;
  idr_alloc_cyclic = one_alloc;
  entries = one_entries;
  removed = removed;
  others = others;
  fewer = fewer;
  next_some = next_some;
  next_none = next_none;
  was_free = was_free;
  is_there = is_there;
  as_before = as_before;
}

abbrev pub nothing : Transaction
nothing = record {
  op = 0;
  payload = [];
  seq = 0;
  status = 0;
  answer = [];
  callback = false;
  done = 0;
  notified = 0;
  refcount = 0;
  freed = false;
}

-- The control plane of a card that was probed, and with one STAT request that waits.
abbrev pub probed : State one_idr
probed = record {
  inflight_reqs = none;
  cell = λ a. nothing;
  kmalloc = 0;
  rpdev = true;
  drvdata = true;
  info = [];
  info_valid = false;
}

abbrev pub allocated : State one_idr
allocated = (transaction_alloc one_idr true false probed).1

abbrev pub asking : State one_idr
asking = set_cell one_idr 0 (record (allocated.cell 0) { op = Hw.op_stat; payload = [] }) allocated

-- A reply of the device to it, with 40 bytes of payload.
abbrev pub answer : List ℕ
answer =
    to_le32 1
    ++ (to_le16 4
        ++ (to_le16 0
            ++ (to_le32 0
                ++ (to_le32 0
                    ++ (1 ∷ 2 ∷ 3 ∷ 4 ∷ 5 ∷ 6 ∷ 7 ∷ 8 ∷ 9 ∷ 10 ∷ 11 ∷ 12 ∷ 13 ∷ 14 ∷ 15 ∷ 16 ∷ 17
                        ∷ 18 ∷ 19 ∷ 20 ∷ 21 ∷ 22 ∷ 23 ∷ 24 ∷ 25 ∷ 26 ∷ 27 ∷ 28 ∷ 29 ∷ 30 ∷ 31 ∷ 32
                        ∷ 33 ∷ 34 ∷ 35 ∷ 36 ∷ 37 ∷ 38 ∷ 39 ∷ 40 ∷ [])))))

-- The resource table of the image with the notifyids 5 to 8, at an address of the host.
abbrev pub shared_table : Image
shared_table = notified (λ q. q + 5)

abbrev pub table_at : ℕ
table_at = 0x8000

abbrev pub table_bus : Env
table_bus = record bus {
  pci_dma_read = λ done iova len. (true, load (λ i. shared_table (i - table_at)) iova len);
}

abbrev pub published : VelocitorState
published = record running {
  rsc = record { rsc_addr_lo = table_at; rsc_addr_hi = 0; rsc_len = 220; rsc_valid = 1 };
}

abbrev pub driver : VelocitorDev
driver = record {
  window_base = 0;
  vqs = λ q. record { index = q; vector = q + 1; notifyid = 0xFFFFFFFF; dma = 0x100000 * (q + 1) };
  dtrace_da = 0;
  pool_dma = 0x800000;
  rsc_dma = table_at;
  rproc_generation = 1;
}
