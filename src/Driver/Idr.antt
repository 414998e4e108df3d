-- ===== src/Driver/Idr.antt =====
-- The kernel's IDR as module/src/ctrl.c and module/src/ctrl-transaction.c use it: a table from
-- numbers to pointers. A pointer is the number of the object. The laws are what its documentation
-- (core-api/idr) says of each call; `entries` is how many there are.
use linux_pci_driver.Common.{ℕ, ◌<◌, ◌≢◌, ◌≡◌, ◌⊎◌, inr, Option, none, some}

pub record Idr : Type 1 where
  pub Table : Type 0
  pub idr_find : Table → ℕ → Option ℕ
  pub idr_remove : Table → ℕ → Table
  pub idr_get_next : Table → Option (ℕ × ℕ)
  -- From 1 on: an errno, or the number and the table.
  pub idr_alloc_cyclic : Table → ℕ → ℕ ⊎ (ℕ × Table)
  pub entries : Table → ℕ
  pub removed : (t : Table) (k : ℕ) → idr_find (idr_remove t k) k ≡ none
  pub others : (t : Table) (k j : ℕ) → j ≢ k → idr_find (idr_remove t k) j ≡ idr_find t j
  pub fewer : (t : Table) (k a : ℕ) → idr_find t k ≡ some a → entries (idr_remove t k) < entries t
  pub next_some : (t : Table) (k a : ℕ) → idr_get_next t ≡ some (k, a) → idr_find t k ≡ some a
  pub next_none : (t : Table) (k : ℕ) → idr_get_next t ≡ none → idr_find t k ≡ none
  pub was_free : (t t' : Table) (a k : ℕ) → idr_alloc_cyclic t a ≡ inr (k, t') → idr_find t k ≡ none
  pub is_there :
      (t t' : Table) (a k : ℕ) → idr_alloc_cyclic t a ≡ inr (k, t') → idr_find t' k ≡ some a
  pub as_before :
      (t t' : Table) (a k j : ℕ)
      → idr_alloc_cyclic t a ≡ inr (k, t')
      → j ≢ k
      → idr_find t' j ≡ idr_find t j
