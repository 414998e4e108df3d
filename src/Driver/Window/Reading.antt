-- ===== src/Driver/Window/Reading.antt =====
-- What a read through the window of module/src/window.c delivers.
use linux_pci_driver.Common.{
  ℕ, zero, suc, ◌+◌, ◌-◌, ◌*◌, ◌/◌, ◌%◌, ◌^◌, ◌≤◌, ◌<◌, min, ltb, leb, ◌==◌, Bool, true, false,
  ◌||◌, some, List, [], ◌++◌, ◌≡◌, refl, ap, ◌∙◌, arith, load, dchoose, test_bit, complement,
  bit_and, ◌≢◌, Bool-cases, inl, inr,
}
use linux_pci_driver.Hw.{window_size, mem_size, bar2_window_off, eio, err_inject_win_ignore}
use linux_pci_driver.Hw.Reg.{decode}
use linux_pci_driver.Device.State.{VelocitorState, Env}
use linux_pci_driver.Device.Window.{window_promote, window_write_base}
use linux_pci_driver.Device.Bar0.{access_ok, bar0_read, bar0_write, reg_read, reg_write}
use linux_pci_driver.Device.Window.Protocol.{valid_base}
use linux_pci_driver.Driver.Io.{bar2_byte}
use linux_pci_driver.Driver.Window.{Both, window_seek, read_windows, window_read}

-- The window stands at a base, over the same memory, and no write will be dropped.
record Stands (base : ℕ) (m : ℕ → ℕ) (r : Bool × Both) : Type 0 where
  found : r.0 ≡ true
  at : r.1.1.win_base ≡ base
  same : r.1.1.mem ≡ m
  calm : test_bit r.1.1.err_inject err_inject_win_ignore ≡ false

promote_rest :
    (s : VelocitorState)
    → ((window_promote s).win_base ≡ s.win_pending)
      × ((window_promote s).mem ≡ s.mem)
      × ((window_promote s).err_inject ≡ s.err_inject)
unfolding window_promote
promote_rest s =
    dchoose
      (λ (t : VelocitorState).
        (t.win_base ≡ s.win_pending) × (t.mem ≡ s.mem) × (t.err_inject ≡ s.err_inject))
      (s.win_pending == s.win_base) (λ same. (ground arith, refl, refl)) (λ _. (refl, refl, refl))

write_valid :
    (base : ℕ) (s : VelocitorState)
    → valid_base base ≡ true
    → test_bit s.err_inject err_inject_win_ignore ≡ false
    → let t = window_write_base base s in
      (t.win_pending ≡ base) × (t.mem ≡ s.mem) × (t.err_inject ≡ s.err_inject)
unfolding window_write_base
write_valid base s valid calm = ground arith

seek-Stands :
    (env : Env) (base : ℕ) (b : Both)
    → valid_base base ≡ true
    → test_bit b.1.err_inject err_inject_win_ignore ≡ false
    → Stands base b.1.mem (window_seek env base b)
unfolding window_seek bar0_write bar0_read reg_read reg_write decode access_ok
seek-Stands env base (d, s) valid calm =
    let small : base % 2 ^ 32 ≡ base = ground arith in
    let t = window_write_base base s in
    let (pending, mem, inject) = write_valid base s valid calm in
    let (at, still, armed) = promote_rest t in
    rw small (record {
      found = ground (arith, at, pending);
      at = at ∙ pending;
      same = still ∙ mem;
      calm = rw (armed, inject) calm;
    })

pub load-shift :
    (m k : ℕ → ℕ) (a b n : ℕ) → ((i : ℕ) → i < n → m (a + i) ≡ k (b + i)) → load m a n ≡ load k b n
unfolding load
load-shift m k a b zero same = refl
load-shift m k a b (suc n) same =
    let first : m a ≡ k b = ground (arith, same 0) in
    rw (first, load-shift m k (a + 1) (b + 1) n (λ i lt. ground (arith, same (i + 1)))) refl

pub load-add : (m : ℕ → ℕ) (a p q : ℕ) → load m a (p + q) ≡ load m a p ++ load m (a + p) q
unfolding load
load-add m a zero q = ground arith
load-add m a (suc p) q =
    let shape : suc p + q ≡ suc (p + q) = omega arith in
    let at : a + suc p ≡ a + 1 + p = omega arith in rw (shape, at, load-add m (a + 1) p q) refl

-- The high half of BAR2 shows device memory from the window's base on.
view-load :
    (s : VelocitorState) (a k n : ℕ) (m : ℕ → ℕ)
    → s.win_base + k ≡ a
    → s.mem ≡ m
    → load (bar2_byte s) (bar2_window_off + k) n ≡ load m a n
unfolding bar2_byte
view-load s a k n m at same = rw (← same) (
    load-shift (bar2_byte s) s.mem (bar2_window_off + k) a n (λ i lt.
      dchoose (λ (x : ℕ). x ≡ s.mem (a + i)) (ltb (bar2_window_off + k + i) bar2_window_off)
        (λ low. absurd (ground arith)) (λ _. ap s.mem (omega (arith, at)))))

read_windows_lem :
    (env : Env) (m : ℕ → ℕ) (fuel window size done offset : ℕ) (bytes : List ℕ) (b : Both)
    → b.1.mem ≡ m
    → test_bit b.1.err_inject err_inject_win_ignore ≡ false
    → window % window_size ≡ 0
    → offset + size ≤ mem_size
    → done ≤ size
    → (done < size → window + window_size ≡ offset + done)
    → size ≤ done + fuel * window_size
    → bytes ≡ load m offset done
    → (b' : Both) × (read_windows env fuel window size done bytes b
        ≡ some (record { err = 0; bytes = load m offset size; both = b' }))
unfolding read_windows
read_windows_lem env m zero window size done offset bytes b mem calm aligned fits le edge enough
      got =
    let whole : done ≡ size = omega arith in
    let end : ltb done size ≡ false = ground arith in (b, rw (end, got, whole) refl)
read_windows_lem env m (suc fuel) window size done offset bytes b mem calm aligned fits le edge
      enough got =
    elim (Bool-cases (ltb done size)) [
      | inl more ↦
          let next = window + window_size in
          let valid : valid_base next ≡ true = ground (arith, edge) in
          let seek = seek-Stands env next b valid calm in
          let todo = min (size - done) window_size in
          let at : next ≡ offset + done = edge (ground arith) in
          rw (more, seek.found)
            (read_windows_lem env m fuel next size (done + todo) offset
              (bytes ++ load (bar2_byte (window_seek env next b).1.1) bar2_window_off todo)
              (window_seek env next b).1 (seek.same ∙ mem) seek.calm (omega arith) fits
              (omega arith) (λ lt. omega (arith, at)) (omega arith)
              (rw
                (
                  got,
                  load-add m offset done todo,
                  view-load (window_seek env next b).1.1 (offset + done) 0 todo m
                      (omega (arith, seek.at, at)) (seek.same ∙ mem),
                )
                refl))
      | inr full ↦ let whole : done ≡ size = ground arith in (b, rw (full, got, whole) refl)
    ]

-- A read of device memory through the sliding window. When the range lies in device memory and
-- begins before its end, and no injected error will drop a move of the window, the read returns 0
-- with exactly the bytes of the range, also when it crosses windows; one round of the loop for each
-- further window of the range is enough.
pub window_read_lem :
    (env : Env) (fuel offset size : ℕ) (b : Both)
    → offset < mem_size
    → offset + size ≤ mem_size
    → size ≤ fuel * window_size
    → test_bit b.1.err_inject err_inject_win_ignore ≡ false
    → (b' : Both) × (window_read env fuel offset size b
        ≡ some (record { err = 0; bytes = load b.1.mem offset size; both = b' }))
unfolding window_read
window_read_lem env fuel offset size b inside fits enough calm =
    let window = offset / window_size * window_size in
    let valid : valid_base window ≡ true = ground arith in
    let seek = seek-Stands env window b valid calm in
    let done = min size (window_size + window - offset) in
    let sane : (leb (2 ^ 64) (offset + size) || ltb mem_size (offset + size)) ≡ false =
      ground arith in
    let first : bar2_window_off + offset - window ≡ bar2_window_off + (offset - window) =
      omega arith in
    rw (sane, seek.found)
      (read_windows_lem env b.1.mem fuel window size done offset
        (load (bar2_byte (window_seek env window b).1.1) (bar2_window_off + offset - window) done)
        (window_seek env window b).1 seek.same seek.calm (omega arith) fits (omega arith)
        (λ lt. omega arith) (omega arith)
        (rw first (
          view-load (window_seek env window b).1.1 offset (offset - window) done b.1.mem
            (omega (arith, seek.at)) seek.same)))

seek_ignored :
    (env : Env) (base : ℕ) (b : Both)
    → test_bit b.1.err_inject err_inject_win_ignore ≡ true
    → b.1.win_pending ≢ base
    → (window_seek env base b).0 ≡ false
unfolding window_seek bar0_write bar0_read reg_read reg_write decode access_ok window_write_base
seek_ignored env base (d, s) armed other =
    let P = λ (t : VelocitorState). (base == (window_promote t).win_base) ≡ false in
    dchoose P (test_bit s.err_inject err_inject_win_ignore)
      (λ _. ground (
        arith,
        promote_rest (record s {
          inject = record (s.inject) {
            err_inject = bit_and s.err_inject (complement 32 (2 ^ err_inject_win_ignore));
          };
        }),
      ))
      (λ e. absurd (ground arith))

-- A read within device memory for which the device drops the first move of the window, because that
-- injected error is armed, delivers no bytes and returns EIO, unless the window had been asked for
-- before.
pub window_read-ignored :
    (env : Env) (fuel offset size : ℕ) (b : Both)
    → offset + size ≤ mem_size
    → test_bit b.1.err_inject err_inject_win_ignore ≡ true
    → b.1.win_pending ≢ offset / window_size * window_size
    → (b' : Both) × (window_read env fuel offset size b
        ≡ some (record { err = eio; bytes = []; both = b' }))
unfolding window_read
window_read-ignored env fuel offset size b fits armed other =
    let sane : (leb (2 ^ 64) (offset + size) || ltb mem_size (offset + size)) ≡ false =
      ground arith in
    (
      (window_seek env (offset / window_size * window_size) b).1,
      rw (sane, seek_ignored env (offset / window_size * window_size) b armed other) refl,
    )
