-- ===== src/Driver/Ctrl/Once.antt =====
-- Every control transaction of module/src/ctrl-transaction.c is in the table and not notified yet,
-- or has been notified once.
pub mod Steps
use linux_pci_driver.Common.{
  ℕ, zero, suc, ◌+◌, ◌≤◌, ◌<◌, Bool, true, ◌≡◌, ◌≢◌, ◌⊎◌, refl, sym, ap, ◌∙◌, subst, arith, inl,
  inr, Option, none, some, update, update-same, update-other, Option-cases, ℕ_discrete,
}
use linux_pci_driver.Hw.{estale}
use linux_pci_driver.Driver.Idr.{Idr}
use linux_pci_driver.Driver.Ctrl.{Ctrl, Transaction, State, set_cell, settle, drain}
use linux_pci_driver.Driver.Ctrl.Settling.{Settled, settle-Settled}

pub some-eq : (a b : ℕ) → some a ≡ some b → a ≡ b
some-eq a b e = cc

module _ (idr : Idr) where
  abbrev pub find : State idr → ℕ → Option ℕ
  find c = idr.idr_find c.inflight_reqs

  pub record Once (c : State idr) : Type 0 where
    pub listed :
        (k a : ℕ)
        → find c k ≡ some a
        → ((c.cell a).seq ≡ k) × (a < c.kmalloc) × ((c.cell a).notified ≡ 0)
    pub accounted :
        (a : ℕ)
        → a < c.kmalloc
        → (((c.cell a).notified ≡ 0) × (find c (c.cell a).seq ≡ some a)) ⊎ ((c.cell a).notified ≡ 1)

  -- The state with the entry taken out.
  abbrev pub claim : ℕ → State idr → State idr
  claim k c = record c { inflight_reqs = idr.idr_remove c.inflight_reqs k }

  module _ (c : State idr) (once : Once c) (k a : ℕ) (here : find c k ≡ some a) where
    pub alone : (j b : ℕ) → find c j ≡ some b → j ≢ k → b ≢ a
    alone j b e other same =
        other (sym (once.listed j b e).0 ∙ ap (λ x. (c.cell x).seq) same ∙ (once.listed k a here).0)

    apart : (b : ℕ) → b ≢ a → find c (c.cell b).seq ≡ some b → (c.cell b).seq ≢ k
    apart b other e same = other (some-eq b a (sym e ∙ ap (find c) same ∙ here))

    pub claim-Once :
        (t : Transaction) (c' : State idr)
        → t.seq ≡ (c.cell a).seq
        → t.notified ≡ (c.cell a).notified
        → Settled idr a t (claim k c) c'
        → Once c'
    claim-Once t c' seq count settled = record { listed = kept; accounted = left }
      where
        same_find : (j : ℕ) → find c' j ≡ find (claim k c) j
        same_find j = ap (λ u. idr.idr_find u j) settled.table

        kept :
            (j b : ℕ)
            → find c' j ≡ some b
            → ((c'.cell b).seq ≡ j) × (b < c'.kmalloc) × ((c'.cell b).notified ≡ 0)
        kept j b e = elim (ℕ_discrete j k) [
          | yes same ↦ absurd (cc (sym e ∙ same_find j, idr.removed c.inflight_reqs k, same))
          | no other ↦
              let was : find c j ≡ some b =
                sym (idr.others c.inflight_reqs k j other) ∙ sym (same_find j) ∙ e in
              let cell = settled.rest b (alone j b was other) in
              let (s, lt, n) = once.listed j b was in
              (
                ap (λ (u : Transaction). u.seq) cell ∙ s,
                omega (arith, settled.next, lt),
                ap (λ (u : Transaction). u.notified) cell ∙ n,
              )
        ]

        left :
            (b : ℕ)
            → b < c'.kmalloc
            → (((c'.cell b).notified ≡ 0) × (find c' (c'.cell b).seq ≡ some b))
              ⊎ ((c'.cell b).notified ≡ 1)
        left b lt = elim (ℕ_discrete b a) [
          | yes same ↦ inr (
              ap (λ x. (c'.cell x).notified) same
              ∙ omega (arith, settled.notified_once, count, (once.listed k a here).2))
          | no other ↦ elim (once.accounted b (omega (arith, settled.next))) [
            | inl (n, e) ↦
                let cell = settled.rest b other in
                let seq_kept = ap (λ (u : Transaction). u.seq) cell in
                inl (
                  ap (λ (u : Transaction). u.notified) cell ∙ n,
                  ap (find c') seq_kept
                      ∙ same_find (c.cell b).seq
                      ∙ idr.others c.inflight_reqs k (c.cell b).seq (apart b other e)
                      ∙ e,
                )
            | inr n ↦ inr (ap (λ (u : Transaction). u.notified) (settled.rest b other) ∙ n)
          ]
        ]

  -- A change of the cells that keeps numbers and notifications keeps the invariant.
  pub cells-Once :
      (c : State idr) (f : ℕ → Transaction)
      → ((b : ℕ) → ((f b).seq ≡ (c.cell b).seq) × ((f b).notified ≡ (c.cell b).notified))
      → Once c
      → Once (record c { cell = f })
  cells-Once c f same once = record {
    listed = λ k a e. let (s, lt, n) = once.listed k a e in ((same a).0 ∙ s, lt, (same a).1 ∙ n);
    accounted = λ a lt. elim (once.accounted a lt) [
      | inl (n, e) ↦ inl ((same a).1 ∙ n, ap (find c) (same a).0 ∙ e)
      | inr n ↦ inr ((same a).1 ∙ n)
    ];
  }

  unfoldable pub stale : ℕ → State idr → Transaction
  stale a c = record (c.cell a) { status = estale }

  pub drain_round :
      (c : State idr) (k a : ℕ)
      → Once c
      → find c k ≡ some a
      → Once (settle idr a (stale a c) (claim k c))
        × (idr.entries (settle idr a (stale a c) (claim k c)).inflight_reqs
            < idr.entries c.inflight_reqs)
  unfolding stale
  drain_round c k a once here =
      let settled = settle-Settled idr a (stale a c) (claim k c) in
      (
        claim-Once c once k a here (stale a c) _ refl refl settled,
        subst (λ u. idr.entries u < idr.entries c.inflight_reqs) (sym settled.table)
            (idr.fewer c.inflight_reqs k a here),
      )

  pub drain_lem :
      (fuel : ℕ) (c : State idr)
      → Once c
      → idr.entries c.inflight_reqs ≤ fuel
      → ((drain idr fuel c).0 ≡ true)
        × Once (drain idr fuel c).1
        × ((k : ℕ) → find (drain idr fuel c).1 k ≡ none)
        × ((drain idr fuel c).1.kmalloc ≡ c.kmalloc)
  unfolding drain stale
  drain_lem zero c once few = elim (Option-cases (idr.idr_get_next c.inflight_reqs)) [
    | inl end ↦ rw (end, drain) (refl, once, λ k. idr.next_none c.inflight_reqs k end, refl)
    | inr ((k, a), e) ↦
        absurd
          (omega (arith, idr.fewer c.inflight_reqs k a (idr.next_some c.inflight_reqs k a e), few))
  ]
  drain_lem (suc fuel) c once few = elim (Option-cases (idr.idr_get_next c.inflight_reqs)) [
    | inl end ↦ rw (end, drain) (refl, once, λ k. idr.next_none c.inflight_reqs k end, refl)
    | inr ((k, a), e) ↦
        let (once1, fewer) = drain_round c k a once (idr.next_some c.inflight_reqs k a e) in
        let next = (settle-Settled idr a (stale a c) (claim k c)).next in
        let (ended, once2, empty, same) = drain_lem fuel _ once1 (omega (arith, fewer)) in
        rw (e, drain) (ended, once2, empty, same ∙ next)
  ]
