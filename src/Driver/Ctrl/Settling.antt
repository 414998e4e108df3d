-- ===== src/Driver/Ctrl/Settling.antt =====
-- What the one who takes a transaction out of the table does to it, and the drain of the table when
-- the channel of module/src/ctrl.c goes away.
use linux_pci_driver.Common.{
  if◌then◌else◌, true, false, ℕ, ◌+◌, ◌-◌, leb, ◌==◌, Bool, not, ◌||◌, ◌≡◌, refl, ◌∙◌, ap, ◌≢◌,
  Option, none, some, update, choose, update-same, update-other, List, length, le16, le32, ltb,
}
use linux_pci_driver.Driver.Idr.{Idr}
use linux_pci_driver.Driver.Ctrl.{
  Transaction, State, set_cell, kref_put, transaction_release, transaction_notify, oninfo, settle,
  take_reply, fill_answer, answer_len, reply_status, msg_size,
}

-- What a reply leaves alone.
abbrev pub SameEntry : Transaction → Transaction → Type 0
SameEntry t u = (u.seq ≡ t.seq) × (u.notified ≡ t.notified) × (u.refcount ≡ t.refcount)

fill_answer-kept :
    (len : Option ℕ) (msg : List ℕ) (t : Transaction) → SameEntry t (fill_answer len msg t)
unfolding fill_answer
fill_answer-kept none msg t = (refl, refl, refl)
fill_answer-kept (some n) msg t =
    choose (SameEntry t) (ltb (length msg - msg_size) n) (refl, refl, refl) (refl, refl, refl)

pub take_reply-kept : (msg : List ℕ) (t : Transaction) → SameEntry t (take_reply msg t)
unfolding take_reply
take_reply-kept msg t =
    choose (SameEntry t) (not (le16 msg 4 == t.op)) (refl, refl, refl)
      (choose (SameEntry t) (not (reply_status (le32 msg 8) == 0)) (refl, refl, refl)
        (fill_answer-kept (answer_len t.op) msg (record t { status = 0 })))

-- Notified once and one reference less.
abbrev pub settled : Transaction → Transaction
settled t = kref_put (record t { notified = t.notified + 1; done = t.done + 1 })

pub settled_status : (t : Transaction) → (settled t).status ≡ t.status
unfolding kref_put
settled_status t = refl

pub settled_answer : (t : Transaction) → (settled t).answer ≡ t.answer
unfolding kref_put
settled_answer t = refl

pub settled_rest :
    (t : Transaction) → ((settled t).callback ≡ t.callback) × ((settled t).done ≡ t.done + 1)
unfolding kref_put
settled_rest t = (refl, refl)

if-false {ℓ} : {A : Type ℓ} (b : Bool) (x y : A) → b ≡ false → (if b then x else y) ≡ y
if-false true x y e = absurd (cc e)
if-false false x y e = refl

module _ (idr : Idr) where
  pub record Settled (a : ℕ) (t : Transaction) (c c' : State idr) : Type 0 where
    pub table : c'.inflight_reqs ≡ c.inflight_reqs
    pub next : c'.kmalloc ≡ c.kmalloc
    pub notified_once : (c'.cell a).notified ≡ t.notified + 1
    pub same_seq : (c'.cell a).seq ≡ t.seq
    pub same_status : (c'.cell a).status ≡ t.status
    pub same_answer : (c'.cell a).answer ≡ t.answer
    pub put : (c'.cell a).refcount ≡ t.refcount - 1
    pub freed_now : (c'.cell a).freed ≡ (t.freed || leb t.refcount 1)
    pub rest : (b : ℕ) → b ≢ a → c'.cell b ≡ c.cell b

  -- A notification counts, completes or calls back, and does no more.
  notify_any {ℓ} :
      (P : State idr → Type ℓ) (a : ℕ) (c : State idr)
      → ((n : ℕ) (i : List ℕ) (v : Bool)
          → P (record c {
            cell =
                update c.cell a
                  (record (c.cell a) { notified = (c.cell a).notified + 1; done = n });
            info = i;
            info_valid = v;
          }))
      → P (transaction_notify idr a c)
  unfolding transaction_notify oninfo
  notify_any P a c h =
      choose P (c.cell a).callback (choose P (not ((c.cell a).status == 0)) (h _ _ _) (h _ _ _))
        (h _ _ _)

  settle-at :
      (a n : ℕ) (t : Transaction) (f : ℕ → Transaction)
      → let mark : Transaction → Transaction =
          λ u. record u { notified = u.notified + 1; done = n } in
        let g = update (update f a t) a (mark (update f a t a)) in
        update g a (kref_put (g a)) a ≡ kref_put (mark t)
  settle-at a n t f =
      let mark : Transaction → Transaction =
        λ u. record u { notified = u.notified + 1; done = n } in
      let g = update (update f a t) a (mark (update f a t a)) in
      update-same g a (kref_put (g a))
      ∙ ap kref_put
          (update-same (update f a t) a (mark (update f a t a)) ∙ ap mark (update-same f a t))

  pub settle-Settled : (a : ℕ) (t : Transaction) (c : State idr) → Settled a t c (settle idr a t c)
  unfolding settle transaction_release kref_put
  settle-Settled a t c =
      notify_any (λ (c' : State idr). Settled a t c (transaction_release idr a c')) a
        (set_cell idr a t c)
        λ n i v.
          let at = settle-at a n t c.cell in
          let mark : Transaction → Transaction =
            λ u. record u { notified = u.notified + 1; done = n } in
          let h = update c.cell a t in
          let g = update h a (mark (h a)) in
          record {
            table = refl;
            next = refl;
            notified_once = ap (λ (u : Transaction). u.notified) at;
            same_seq = ap (λ (u : Transaction). u.seq) at;
            same_status = ap (λ (u : Transaction). u.status) at;
            same_answer = ap (λ (u : Transaction). u.answer) at;
            put = ap (λ (u : Transaction). u.refcount) at;
            freed_now = ap (λ (u : Transaction). u.freed) at;
            rest = λ b other.
                update-other g a (kref_put (g a)) b other
                ∙ update-other h a (mark (h a)) b other
                ∙ update-other c.cell a t b other;
          }

  -- Of a transaction without a callback, the whole cell.
  pub settle-cell :
      (a : ℕ) (t : Transaction) (c : State idr)
      → t.callback ≡ false
      → (settle idr a t c).cell a ≡ settled t
  unfolding settle transaction_notify transaction_release
  settle-cell a t c plain =
      let c1 = set_cell idr a t c in
      let is : c1.cell a ≡ t = update-same c.cell a t in
      let mark : Transaction → Transaction =
        λ u. record u { notified = u.notified + 1; done = u.done + 1 } in
      update-same (transaction_notify idr a c1).cell a
        (kref_put ((transaction_notify idr a c1).cell a))
      ∙ ap (λ (c2 : State idr). kref_put (c2.cell a))
          (if-false (c1.cell a).callback _ (set_cell idr a (mark (c1.cell a)) c1)
            (ap (λ (u : Transaction). u.callback) is ∙ plain))
      ∙ ap kref_put (update-same c1.cell a (mark (c1.cell a)))
      ∙ ap (λ u. kref_put (mark u)) is
