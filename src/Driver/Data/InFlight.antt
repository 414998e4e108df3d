-- ===== src/Driver/Data/InFlight.antt =====
-- The slots of module/src/data-transaction.c and the transactions in one ring.
pub mod Steps
pub mod Removal
use linux_pci_driver.Common.{
  ℕ, zero, suc, ◌+◌, ◌≤◌, ◌<◌, ◌==◌, if◌then◌else◌, Bool, true, false, not, ◌||◌, ◌&&◌, leb, ltb,
  ◌^◌, ◌-◌, ◌≡◌, ◌≢◌, ◌⊎◌, inl, inr, refl, sym, ap, subst, ◌∙◌, arith, Option, none, some, List, [],
  ◌∷◌, length, update, update-same, update-other, choose, dchoose, Sum-cases, Option-cases,
  ℕ_discrete,
}
use linux_pci_driver.Hw.{engines, data_inflight, data_op_copy_h2d, data_op_copy_d2h}
use linux_pci_driver.Driver.Handles.{Handle}
use linux_pci_driver.Driver.Data.{
  Data, Posted, set_slot, copy_bytes, transaction_reset, transaction_init, transaction_kick,
  copy_in, data_copy,
}
use linux_pci_driver.Driver.Data.Completion.{
  remove_at, take_buf, complete_all, detach_from, data_virtio_remove,
}

-- How many of the transactions are in a slot.
abbrev pub holds : ℕ → List Posted → ℕ
holds i [] = 0
holds i (t ∷ l) = (if t.slot_idx == i then 1 else 0) + holds i l

abbrev pub AllFrom : ℕ → List Posted → Type 0
AllFrom q [] = Unit {0}
AllFrom q (t ∷ l) = (t.engine ≡ q) × AllFrom q l

-- A slot of a queue is taken for exactly one transaction in its ring, or is free.
pub record InFlight (q : ℕ) (row : ℕ → Bool) (l : List Posted) : Type 0 where
  pub counted : (i : ℕ) → holds i l ≡ (if row i then 1 else 0)
  pub from : AllFrom q l

pub record Removed (q : ℕ) (l : List Posted) (t : Posted) (r : List Posted) : Type 0 where
  pub fewer : length l ≡ suc (length r)
  pub count : (i : ℕ) → holds i l ≡ (if t.slot_idx == i then 1 else 0) + holds i r
  pub of : AllFrom q l → (t.engine ≡ q) × AllFrom q r

first-Removed : (q : ℕ) (x : Posted) (l : List Posted) → Removed q (x ∷ l) x l
first-Removed q x l = record { fewer = refl; count = λ i. refl; of = λ all. all }

later-Removed :
    (q : ℕ) (x u : Posted) (l r : List Posted) → Removed q l u r → Removed q (x ∷ l) u (x ∷ r)
later-Removed q x u l r h = record {
  fewer = omega (arith, h.fewer);
  count = λ i. omega (arith, h.count i);
  of = λ all. ((h.of all.1).0, (all.0, (h.of all.1).1));
}

pub remove_at-Removed :
    (q k : ℕ) (l : List Posted) (t : Posted) (r : List Posted)
    → remove_at k l ≡ some (t, r)
    → Removed q l t r
unfolding remove_at
remove_at-Removed q k [] t r e = absurd (cc e)
remove_at-Removed q zero (x ∷ l) t r e =
    let is : x ≡ t = cc e in
    let left : l ≡ r = cc e in
    subst (λ u. Removed q (x ∷ l) u r) is
      (subst (λ m. Removed q (x ∷ l) x m) left (first-Removed q x l))
remove_at-Removed q (suc k) (x ∷ l) t r e = elim (Option-cases (remove_at k l)) [
  | inl short ↦ absurd (ground (arith, e, short))
  | inr ((u, m), found) ↦
      let both : ◌≡◌ {A = Option (Posted × List Posted)} (some (u, x ∷ m)) (some (t, r)) =
        ground (arith, e, found) in
      let is : u ≡ t = cc both in
      let left : x ∷ m ≡ r = cc both in
      subst (λ v. Removed q (x ∷ l) v r) is
        (subst (λ n. Removed q (x ∷ l) u n) left
          (later-Removed q x u l m (remove_at-Removed q k l u m found)))
]

-- A slot that was free, and the transaction in it.
pub post-InFlight :
    (q : ℕ) (row : ℕ → Bool) (l : List Posted) (t : Posted)
    → row t.slot_idx ≡ false
    → t.engine ≡ q
    → InFlight q row l
    → InFlight q (update row t.slot_idx true) (t ∷ l)
post-InFlight q row l t free mine h = record {
  counted = λ i.
      let free_at : i ≡ t.slot_idx → row i ≡ false = λ same. ap row same ∙ free in
      ground (arith, h.counted i, free_at);
  from = (mine, h.from);
}

pub reset-InFlight :
    (q : ℕ) (row : ℕ → Bool) (l r : List Posted) (t : Posted)
    → Removed q l t r
    → InFlight q row l
    → InFlight q (update row t.slot_idx false) r
reset-InFlight q row l r t gone h = record {
  counted = λ i. ground (arith, h.counted i, gone.count i);
  from = (gone.of h.from).1;
}
