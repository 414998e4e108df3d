-- ===== src/Driver/Ctrl/Drained.antt =====
-- What the drain of `velocitor_ctrl_rpmsg_remove` in module/src/ctrl.c leaves of a transaction.
use linux_pci_driver.Common.{
  ℕ, zero, suc, ◌+◌, ◌-◌, ◌==◌, ◌≤◌, leb, false, ◌||◌, ◌≡◌, ◌≢◌, refl, sym, ap, ◌∙◌, subst, arith,
  inl, inr, none, some, Option-cases, ℕ_discrete,
}
use linux_pci_driver.Hw.{estale}
use linux_pci_driver.Driver.Idr.{Idr}
use linux_pci_driver.Driver.Ctrl.{Transaction, State, set_cell, settle, drain, rpmsg_remove}
use linux_pci_driver.Driver.Ctrl.Send.{transaction_wait}
use linux_pci_driver.Driver.Ctrl.Settling.{Settled, settle-Settled, settle-cell, settled_rest}
use linux_pci_driver.Driver.Ctrl.Once.{find, claim, Once, some-eq, stale, alone, drain_round}
use linux_pci_driver.Driver.Ctrl.Once.Steps.{Run, Fresh, Run-Once, Fresh-Once}

-- A transaction that the drain took out of the table.
pub record Drained (t u : Transaction) : Type 0 where
  pub status_is : u.status ≡ estale
  pub put : u.refcount ≡ t.refcount - 1
  pub freed_now : u.freed ≡ (t.freed || leb t.refcount 1)

module _ (idr : Idr) where
  abbrev Absent : ℕ → State idr → Type 0
  Absent a c = (k : ℕ) → find idr c k ≢ some a

  module _ (c : State idr) (k b : ℕ) (here : find idr c k ≡ some b) where
    after : State idr
    unfolding stale
    after = settle idr b (stale idr b c) (claim idr k c)

    settled : Settled idr b (stale idr b c) (claim idr k c) after
    unfolding after
    settled = settle-Settled idr b (stale idr b c) (claim idr k c)

    completed :
        (c.cell b).callback ≡ false
        → ((after.cell b).callback ≡ false) × ((after.cell b).done ≡ (c.cell b).done + 1)
    unfolding after stale
    completed plain =
        let at = settle-cell idr b (stale idr b c) (claim idr k c) plain in
        let (same, done) = settled_rest (stale idr b c) in
        (
          ap (λ (t : Transaction). t.callback) at ∙ same ∙ plain,
          ap (λ (t : Transaction). t.done) at ∙ done,
        )

    find-after : (j : ℕ) → j ≢ k → find idr after j ≡ find idr c j
    find-after j other =
        ap (λ u. idr.idr_find u j) settled.table ∙ idr.others c.inflight_reqs k j other

    find_claimed : find idr after k ≡ none
    find_claimed = ap (λ u. idr.idr_find u k) settled.table ∙ idr.removed c.inflight_reqs k

    Absent-after : (a : ℕ) → Absent a c → Absent a after
    Absent-after a gone j e = elim (ℕ_discrete j k) [
      | yes same ↦ cc (sym e ∙ ap (find idr after) same, find_claimed)
      | no other ↦ gone j (sym (find-after j other) ∙ e)
    ]

  keeps : (fuel a : ℕ) (c : State idr) → Absent a c → (drain idr fuel c).1.cell a ≡ c.cell a
  unfolding drain after stale
  keeps zero a c gone = elim (Option-cases (idr.idr_get_next c.inflight_reqs)) [
    | inl end ↦ rw (end, drain) refl
    | inr ((k, b), e) ↦ rw (e, drain) refl
  ]
  keeps (suc fuel) a c gone = elim (Option-cases (idr.idr_get_next c.inflight_reqs)) [
    | inl end ↦ rw (end, drain) refl
    | inr ((k, b), e) ↦
        let here = idr.next_some c.inflight_reqs k b e in
        rw (e, drain)
          (keeps fuel a _ (Absent-after c k b here a gone)
            ∙ (settled c k b here).rest a (λ mine. gone k (here ∙ ap some (sym mine))))
  ]

  -- What one round does to the transaction that it takes out holds of all that are taken out.
  module _ (P : Transaction → Transaction → Type 0)
      (step : (c : State idr) (k b : ℕ) (here : find idr c k ≡ some b)
        → P (c.cell b) ((after c k b here).cell b)) where
    drains :
        (fuel k a : ℕ) (c : State idr)
        → Once idr c
        → idr.entries c.inflight_reqs ≤ fuel
        → find idr c k ≡ some a
        → P (c.cell a) ((drain idr fuel c).1.cell a)
    unfolding drain after stale
    drains zero k a c once few here =
        absurd (omega (arith, idr.fewer c.inflight_reqs k a here, few))
    drains (suc fuel) k a c once few here = elim (Option-cases (idr.idr_get_next c.inflight_reqs)) [
      | inl end ↦ absurd (cc (here, idr.next_none c.inflight_reqs k end))
      | inr ((j, b), e) ↦
          let there = idr.next_some c.inflight_reqs j b e in
          let (once1, fewer) = drain_round idr c j b once there in
          elim (ℕ_discrete k j) [
            | yes same ↦
                let mine = some-eq b a (sym there ∙ ap (find idr c) (sym same) ∙ here) in
                let gone : Absent a (after c j b there) = λ i e'. elim (ℕ_discrete i j) [
                  | yes at ↦
                      cc (sym e' ∙ ap (find idr (after c j b there)) at, find_claimed c j b there)
                  | no other ↦
                      let was = sym (find-after c j b there i other) ∙ e' in
                      other (sym (once.listed i a was).0 ∙ (once.listed k a here).0 ∙ same)
                ] in
                rw (e, drain)
                  (subst (P (c.cell a)) (sym (keeps fuel a (after c j b there) gone)) (
                    subst (λ x. P (c.cell x) ((after c j b there).cell x)) mine (step c j b there)))
            | no other ↦
                rw (e, drain)
                  (subst (λ (t : Transaction). P t ((drain idr fuel (after c j b there)).1.cell a))
                    ((settled c j b there).rest a (alone idr c once j b there k a here other))
                    (drains fuel k a _ once1 (omega (arith, fewer))
                      (find-after c j b there k other ∙ here)))
          ]
    ]

  taken-Drained :
      (c : State idr) (k b : ℕ) (here : find idr c k ≡ some b)
      → Drained (c.cell b) ((after c k b here).cell b)
  unfolding after stale
  taken-Drained c k b here = record {
    status_is = (settled c k b here).same_status;
    put = (settled c k b here).put;
    freed_now = (settled c k b here).freed_now;
  }

-- The drain takes one reference of every transaction that it finds in the table, and gives it the
-- status ESTALE: one that was allocated and not sent yet, whose only reference is its caller's, is
-- freed by it.
pub rpmsg_remove-Drained :
    (idr : Idr) (c d : State idr) (fuel k a : ℕ)
    → Fresh idr c
    → Run idr c d
    → idr.entries d.inflight_reqs ≤ fuel
    → find idr d k ≡ some a
    → Drained (d.cell a) ((rpmsg_remove idr fuel d).1.cell a)
unfolding rpmsg_remove
rpmsg_remove-Drained idr c d fuel k a fresh run few here =
    let once = Run-Once idr (Fresh-Once idr c fresh) run in
    drains idr Drained (taken-Drained idr) fuel k a (record d { rpdev = false; drvdata = false })
      (record { listed = once.listed; accounted = once.accounted }) few here

-- With its completion done.
abbrev Woken : Transaction → Transaction → Type 0
Woken t u = t.callback ≡ false → (u.callback ≡ false) × (u.done ≡ t.done + 1)

pub wait-lem :
    (idr : Idr) (a : ℕ) (c : State idr) (t : Transaction)
    → c.cell a ≡ t
    → t.callback ≡ false
    → t.done ≢ 0
    → transaction_wait idr (λ b. 0) a c
      ≡ some (t.status, set_cell idr a (record t { done = t.done - 1 }) c)
unfolding transaction_wait
wait-lem idr a c t is plain done =
    let waiting : (t.done == 0) ≡ false = ground arith in rw (is, plain, waiting) refl

-- A caller that waits for a reply when the channel goes away comes back: after the removal, with as
-- many rounds as the table has entries, the wait for a transaction that was in flight ends, with
-- ESTALE.
pub rpmsg_remove-transaction_wait :
    (idr : Idr) (c d : State idr) (fuel k a : ℕ)
    → Fresh idr c
    → Run idr c d
    → idr.entries d.inflight_reqs ≤ fuel
    → find idr d k ≡ some a
    → (d.cell a).callback ≡ false
    → (e : State idr) × (transaction_wait idr (λ b. 0) a (rpmsg_remove idr fuel d).1
        ≡ some (estale, e))
unfolding rpmsg_remove
rpmsg_remove-transaction_wait idr c d fuel k a fresh run few here plain =
    let once = Run-Once idr (Fresh-Once idr c fresh) run in
    let closed = (rpmsg_remove idr fuel d).1 in
    let (same, done) =
      drains idr Woken (completed idr) fuel k a (record d { rpdev = false; drvdata = false })
        (record { listed = once.listed; accounted = once.accounted }) few here plain in
    let status = (rpmsg_remove-Drained idr c d fuel k a fresh run few here).status_is in
    let after =
      set_cell idr a (record (closed.cell a) { done = (closed.cell a).done - 1 }) closed in
    (
      after,
      wait-lem idr a closed (closed.cell a) refl same (λ z. omega (arith, z, done))
          ∙ ap (λ s. some (s, after)) status,
    )
