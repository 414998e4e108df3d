-- ===== src/Device/Error/First.antt =====
-- What a driver finds in the error block of qemu-device/velocitor.c when errors come in a burst.
use linux_pci_driver.Common.{
  ℕ, ◌+◌, ◌/◌, ◌%◌, ◌^◌, true, false, List, [], ◌∷◌, ◌≡◌, refl, ◌∙◌, ap, subst, ◌<◌, dchoose, arith,
  test_bit, test_bit-bit_or, length,
}
use linux_pci_driver.Hw.{irq_vec_error}
use linux_pci_driver.Device.State.{VelocitorState, Env, Err, add32}
use linux_pci_driver.Device.Irq.{raise}
use linux_pci_driver.Device.Error.{error_qualify}
use linux_pci_driver.Device.Moves.{trace_any}

-- An error as its reporters give it: code, info, notifyid, handle.
pub record Fault : Type 0 where
  pub code : ℕ
  pub info : ℕ
  pub notifyid : ℕ
  pub handle : ℕ

-- What `velocitor_vq_bad_desc`, `velocitor_vq_width_error` and a refused header do: qualify, raise.
unfoldable pub report : Env → Fault → VelocitorState → VelocitorState
report env e s = raise irq_vec_error (error_qualify env e.code e.info e.notifyid e.handle s)

unfoldable pub report_all : Env → List Fault → VelocitorState → VelocitorState
unfolding report
report_all env [] s = s
report_all env (e ∷ es) s = report_all env es (report env e s)

-- The error latch is up, and the block is `e` with `n` errors lost.
record Holding (e : Err) (n : ℕ) (s : VelocitorState) : Type 0 where
  up : test_bit s.irq_status irq_vec_error ≡ true
  code : s.err_code ≡ e.err_code
  info_lo : s.err_info_lo ≡ e.err_info_lo
  info_hi : s.err_info_hi ≡ e.err_info_hi
  notifyid : s.err_notifyid ≡ e.err_notifyid
  handle : s.err_handle ≡ e.err_handle
  generation : s.err_generation ≡ e.err_generation
  dropped : s.err_dropped ≡ n

raise-up : (s : VelocitorState) → test_bit (raise irq_vec_error s).irq_status irq_vec_error ≡ true
unfolding raise
raise-up s = ground (arith, test_bit-bit_or 5 s.irq_status (2 ^ 5))

raise-err : (v : ℕ) (s : VelocitorState) → (raise v s).err ≡ s.err
unfolding raise
raise-err v s = refl

qualify-held :
    (env : Env) (e : Fault) (s : VelocitorState)
    → test_bit s.irq_status irq_vec_error ≡ true
    → (error_qualify env e.code e.info e.notifyid e.handle s).err
      ≡ record (s.err) { err_dropped = add32 s.err_dropped 1 }
unfolding error_qualify
qualify-held env e s up = rw up

report-Holding :
    (env : Env) (f : Fault) (e : Err) (n : ℕ) (s : VelocitorState)
    → Holding e n s
    → Holding e (add32 n 1) (report env f s)
unfolding report
report-Holding env f e n s h =
    let t = error_qualify env f.code f.info f.notifyid f.handle s in
    let same = raise-err irq_vec_error t ∙ qualify-held env f s h.up in
    record {
      up = raise-up t;
      code = ap (λ (x : Err). x.err_code) same ∙ h.code;
      info_lo = ap (λ (x : Err). x.err_info_lo) same ∙ h.info_lo;
      info_hi = ap (λ (x : Err). x.err_info_hi) same ∙ h.info_hi;
      notifyid = ap (λ (x : Err). x.err_notifyid) same ∙ h.notifyid;
      handle = ap (λ (x : Err). x.err_handle) same ∙ h.handle;
      generation = ap (λ (x : Err). x.err_generation) same ∙ h.generation;
      dropped = ap (λ (x : Err). x.err_dropped) same ∙ ap (λ (k : ℕ). add32 k 1) h.dropped;
    }

lost_count : (n : ℕ) → add32 (n % 2 ^ 32) 1 ≡ (n + 1) % 2 ^ 32
lost_count n = omega arith

report_all-Holding :
    (env : Env) (es : List Fault) (e : Err) (n : ℕ) (s : VelocitorState)
    → Holding e (n % 2 ^ 32) s
    → Holding e ((n + length es) % 2 ^ 32) (report_all env es s)
unfolding report_all
report_all-Holding env [] e n s h = subst (λ (k : ℕ). Holding e (k % 2 ^ 32) s) (omega arith) h
report_all-Holding env (f ∷ es) e n s h =
    let first =
      subst (λ (k : ℕ). Holding e k (report env f s)) (lost_count n)
        (report-Holding env f e (n % 2 ^ 32) s h) in
    subst (λ (k : ℕ). Holding e (k % 2 ^ 32) (report_all env es (report env f s))) (omega arith)
      (report_all-Holding env es e (n + 1) _ first)

-- The block that an error fills.
abbrev filled : Fault → VelocitorState → Err
filled e s = record {
  err_code = e.code;
  err_info_lo = e.info % 2 ^ 32;
  err_info_hi = e.info / 2 ^ 32 % 2 ^ 32;
  err_notifyid = e.notifyid;
  err_handle = e.handle;
  err_generation = s.generation;
  err_dropped = s.err_dropped;
}

first-Holding :
    (env : Env) (e : Fault) (s : VelocitorState)
    → test_bit s.irq_status irq_vec_error ≡ false
    → Holding (filled e s) s.err_dropped (report env e s)
unfolding report error_qualify raise
first-Holding env e s down =
    let P = λ (t : VelocitorState). Holding (filled e s) s.err_dropped (raise irq_vec_error t) in
    dchoose P (test_bit s.irq_status irq_vec_error) (λ up. absurd (ground arith))
      (λ _. trace_any env P _ _ _ _ _ (λ mem. record {
        up = raise-up (record s { err = filled e s; mem = mem });
        code = refl;
        info_lo = refl;
        info_hi = refl;
        notifyid = refl;
        handle = refl;
        generation = refl;
        dropped = refl;
      }))

-- When a burst of errors begins with the error latch down and a 32-bit ERR_DROPPED, its first error
-- fills the whole block, with the current generation; the errors behind it, however many, leave the
-- code, the info, the notifyid, the handle and the generation, and are counted in ERR_DROPPED
-- modulo 2^32.
pub report_all-first :
    (env : Env) (e : Fault) (es : List Fault) (s : VelocitorState)
    → test_bit s.irq_status irq_vec_error ≡ false
    → s.err_dropped < 2 ^ 32
    → let t = report_all env (e ∷ es) s in
      (t.err_code ≡ e.code)
      × (t.err_info_lo ≡ e.info % 2 ^ 32)
      × (t.err_info_hi ≡ e.info / 2 ^ 32 % 2 ^ 32)
      × (t.err_notifyid ≡ e.notifyid)
      × (t.err_handle ≡ e.handle)
      × (t.err_generation ≡ s.generation)
      × (t.err_dropped ≡ (s.err_dropped + length es) % 2 ^ 32)
unfolding report_all
report_all-first env e es s down lt =
    let first =
      subst (λ (k : ℕ). Holding (filled e s) k (report env e s)) (omega arith)
        (first-Holding env e s down) in
    let h = report_all-Holding env es (filled e s) s.err_dropped (report env e s) first in
    (h.code, h.info_lo, h.info_hi, h.notifyid, h.handle, h.generation, h.dropped)
