-- ===== src/Driver/Vring/Describing.antt =====
-- How the device of qemu-device/velocitor.c takes the registers of one ring, written by
-- module/src/vring.c.
use linux_pci_driver.Common.{
  bit_or_bounds, ℕ, ◌+◌, ◌%◌, ◌^◌, ◌<◌, ◌≢◌, leb, ◌==◌, false, not, ◌≡◌, refl, sym, ap, subst, ◌∙◌,
  arith, update-same, update-other, dchoose,
}
use linux_pci_driver.Hw as Hw
use linux_pci_driver.Hw.Reg.{VqRegister}
use linux_pci_driver.Device.State.{VelocitorState, VelocitorQueue, Env, set_vq}
use linux_pci_driver.Device.Bus.{wide}
use linux_pci_driver.Device.Moves.{trace_any}
use linux_pci_driver.Device.Bar0.{vq_write, vq_describe, set_field}
use linux_pci_driver.Device.Sweep.{vq_enable, vq_arm, incomplete, is_null}
use linux_pci_driver.Driver.Vring.{lower_32_bits, upper_32_bits}

-- Queue `q` is selected, disabled and as `v` says; the other queues are those of `s0`.
pub record At (q : ℕ) (v : VelocitorQueue) (s0 s : VelocitorState) : Type 0 where
  selected : s.vq_select ≡ q
  is : s.vq q ≡ v
  off : v.enable ≡ 0
  others : (p : ℕ) → p ≢ q → s.vq p ≡ s0.vq p

describe-At :
    (r : VqRegister) (val q : ℕ) (v : VelocitorQueue) (s0 s : VelocitorState)
    → (set_field r val v).enable ≡ 0
    → At q v s0 s
    → At q (set_field r val v) s0 (vq_describe r val s)
unfolding vq_describe
describe-At r val q v s0 s off at =
    let enabled : (s.vq s.vq_select).enable ≡ 0 =
      ap (λ p. (s.vq p).enable) at.selected
      ∙ ap (λ (u : VelocitorQueue). u.enable) at.is
      ∙ at.off in
    let here = update-same s.vq q (set_field r val (s.vq q)) in
    dchoose (At q (set_field r val v) s0) (not ((s.vq s.vq_select).enable == 0))
      (λ on. absurd (ground arith))
      (λ _.
        subst (λ p. At q (set_field r val v) s0 (set_vq p (set_field r val (s.vq p)) s))
          (sym at.selected)
          (record {
            selected = at.selected;
            is = here ∙ ap (set_field r val) at.is;
            off = off;
            others = λ p other.
                update-other s.vq q (set_field r val (s.vq q)) p other ∙ at.others p other;
          }))

-- What is left of an enabled ring.
record On (q : ℕ) (v : VelocitorQueue) (s0 s : VelocitorState) : Type 0 where
  is : s.vq q ≡ record v { enable = 1 }
  others : (p : ℕ) → p ≢ q → s.vq p ≡ s0.vq p

enable-On :
    (env : Env) (q : ℕ) (v : VelocitorQueue) (s0 s : VelocitorState)
    → incomplete v ≡ false
    → At q v s0 s
    → On q v s0 (vq_write env VqRegister.vq_enable 1 s)
unfolding vq_write vq_enable vq_arm
enable-On env q v s0 s whole at =
    let disabled : (s.vq q).enable ≡ 0 = ap (λ (u : VelocitorQueue). u.enable) at.is ∙ at.off in
    let ready = ap incomplete at.is ∙ whole in
    let on : VelocitorQueue → VelocitorQueue = λ u. record u { enable = 1 } in
    let s1 = set_vq q (on (s.vq q)) s in
    subst (λ p. On q v s0 (vq_enable env p 1 s)) (sym at.selected)
      (dchoose (On q v s0) (not ((s.vq q).enable == 0)) (λ e. absurd (ground arith))
        (λ _.
          dchoose (On q v s0) (incomplete (s.vq q)) (λ e. absurd (cc (e, ready)))
            (λ _.
              trace_any env (λ (t : VelocitorState). On q v s0 (vq_arm q t)) _ _ _ _ s1
                (λ mem. record {
                  is = update-same s.vq q (on (s.vq q)) ∙ ap on at.is;
                  others = λ p other. update-other s.vq q (on (s.vq q)) p other ∙ at.others p other;
                }))))

pub select-At :
    (env : Env) (q : ℕ) (s : VelocitorState)
    → q < Hw.vq_count
    → (s.vq q).enable ≡ 0
    → At q (s.vq q) s (vq_write env VqRegister.vq_select (q % 2 ^ 32) s)
unfolding vq_write
select-At env q s lt off =
    dchoose (At q (s.vq q) s) (leb Hw.vq_count (q % 2 ^ 32)) (λ e. absurd (ground arith))
      (λ _. record { selected = omega arith; is = refl; off = off; others = λ p _. refl })

-- A ring of the driver as the device has it.
pub record Served (dma avail_off used_off vector : ℕ) (u : VelocitorQueue) : Type 0 where
  pub enabled : u.enable ≡ 1
  pub size : u.num ≡ Hw.vring_num
  pub interrupt : u.msix_vector ≡ vector
  pub desc : wide u.desc_hi u.desc_lo ≡ dma
  pub avail : wide u.avail_hi u.avail_lo ≡ dma + avail_off
  pub used : wide u.used_hi u.used_lo ≡ dma + used_off

-- The words of an address that is not 0 and has 64 bits.
not_null :
    (a : ℕ)
    → 0 < a
    → a < 2 ^ 64
    → is_null (lower_32_bits a % 2 ^ 32) (upper_32_bits a % 2 ^ 32) ≡ false
not_null a pos lt =
    let (low, high) = bit_or_bounds (lower_32_bits a % 2 ^ 32) (upper_32_bits a % 2 ^ 32) in
    ground (arith, low, high)

words_wide : (a : ℕ) → a < 2 ^ 64 → wide (upper_32_bits a % 2 ^ 32) (lower_32_bits a % 2 ^ 32) ≡ a
words_wide a lt = omega arith

start_below : (a b c : ℕ) → a + b < c → a < c
start_below a b c lt = omega arith

sum_pos : (a b : ℕ) → 0 < a → 0 < a + b
sum_pos a b pos = omega arith

vector_kept :
    (v : ℕ) → v < Hw.msix_vectors → (v % 2 ^ 32 ≡ v) × (leb Hw.msix_vectors (v % 2 ^ 32) ≡ false)
vector_kept v lt = (omega arith, ground arith)

-- The description of a ring, by the words that are written.
abbrev pub described : ℕ → ℕ → ℕ → ℕ → VelocitorQueue → VelocitorQueue
described d a u vector w = record w {
  num = Hw.vring_num;
  desc_lo = lower_32_bits d % 2 ^ 32;
  desc_hi = upper_32_bits d % 2 ^ 32;
  avail_lo = lower_32_bits a % 2 ^ 32;
  avail_hi = upper_32_bits a % 2 ^ 32;
  used_lo = lower_32_bits u % 2 ^ 32;
  used_hi = upper_32_bits u % 2 ^ 32;
  msix_vector = vector % 2 ^ 32;
}

address-At :
    (lo hi : VqRegister) (a q : ℕ) (v w : VelocitorQueue) (s0 s : VelocitorState)
    → set_field hi (upper_32_bits a % 2 ^ 32) (set_field lo (lower_32_bits a % 2 ^ 32) v) ≡ w
    → (set_field lo (lower_32_bits a % 2 ^ 32) v).enable ≡ 0
    → w.enable ≡ 0
    → At q v s0 s
    → At q w s0
        (vq_describe hi (upper_32_bits a % 2 ^ 32) (vq_describe lo (lower_32_bits a % 2 ^ 32) s))
address-At lo hi a q v w s0 s same off1 off2 at =
    subst
      (λ u.
        At q u s0
          (vq_describe hi (upper_32_bits a % 2 ^ 32) (vq_describe lo (lower_32_bits a % 2 ^ 32) s)))
      same
      (describe-At hi (upper_32_bits a % 2 ^ 32) q _ s0 _
        (ap (λ (u : VelocitorQueue). u.enable) same ∙ off2)
        (describe-At lo (lower_32_bits a % 2 ^ 32) q v s0 s off1 at))

-- The eight words, over any state in which the queue is selected.
abbrev describe_ring : ℕ → ℕ → ℕ → ℕ → VelocitorState → VelocitorState
describe_ring d a u vector s =
    let write = λ (r : VqRegister) (x : ℕ) (t : VelocitorState). vq_describe r (x % 2 ^ 32) t in
    write VqRegister.vq_msix_vector vector (
      write VqRegister.vq_num Hw.vring_num (
        write VqRegister.vq_used_hi (upper_32_bits u) (
          write VqRegister.vq_used_lo (lower_32_bits u) (
            write VqRegister.vq_avail_hi (upper_32_bits a) (
              write VqRegister.vq_avail_lo (lower_32_bits a) (
                write VqRegister.vq_desc_hi (upper_32_bits d)
                  (write VqRegister.vq_desc_lo (lower_32_bits d) s)))))))

pub describe_ring-At :
    (d a u vector q : ℕ) (v : VelocitorQueue) (s0 s : VelocitorState)
    → At q v s0 s
    → At q (described d a u vector v) s0 (describe_ring d a u vector s)
unfolding set_field
describe_ring-At d a u vector q v s0 s at =
    let off = at.off in
    let at_desc =
      address-At VqRegister.vq_desc_lo VqRegister.vq_desc_hi d q v _ s0 s refl off off at in
    let at_avail =
      address-At VqRegister.vq_avail_lo VqRegister.vq_avail_hi a q _ _ s0 _ refl off off at_desc in
    let at_used =
      address-At VqRegister.vq_used_lo VqRegister.vq_used_hi u q _ _ s0 _ refl off off at_avail in
    describe-At VqRegister.vq_msix_vector (vector % 2 ^ 32) q _ s0 _ off
      (describe-At VqRegister.vq_num Hw.vring_num q _ s0 _ off at_used)

pub finish-Served :
    (env : Env) (q d avail_off used_off vector : ℕ) (v : VelocitorQueue) (s0 s : VelocitorState)
    → vector < Hw.msix_vectors
    → 0 < d
    → d + avail_off < 2 ^ 64
    → d + used_off < 2 ^ 64
    → At q (described d (d + avail_off) (d + used_off) vector v) s0 s
    → let t = vq_write env VqRegister.vq_enable 1 s in
      Served d avail_off used_off vector (t.vq q) × ((p : ℕ) → p ≢ q → t.vq p ≡ s0.vq p)
finish-Served env q d avail_off used_off vector v s0 s vec pos avail used at =
    let (vector_is, vector_ok) = vector_kept vector vec in
    let near = start_below d avail_off (2 ^ 64) avail in
    let on =
      enable-On env q _ s0 s
        (rw
          (
            not_null d pos near,
            not_null (d + avail_off) (sum_pos d avail_off pos) avail,
            not_null (d + used_off) (sum_pos d used_off pos) used,
            vector_ok,
          )
          refl)
        at in
    (
      subst (Served d avail_off used_off vector) (sym on.is) (record {
        enabled = refl;
        size = refl;
        interrupt = vector_is;
        desc = words_wide d near;
        avail = words_wide (d + avail_off) avail;
        used = words_wide (d + used_off) used;
      }),
      on.others,
    )
