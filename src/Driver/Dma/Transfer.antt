-- ===== src/Driver/Dma/Transfer.antt =====
-- A bring-up transfer of module/src/dma.c that the engine of qemu-device/velocitor.c carries out.
use linux_pci_driver.Common.{
  ℕ, ◌+◌, ◌%◌, ◌^◌, ◌≤◌, ◌<◌, ltb, leb, ◌||◌, ◌≡◌, refl, sym, ◌∙◌, subst, arith, true, false, some,
  List, load, length,
}
use linux_pci_driver.Hw.{host_pool_size, mem_size, dma_bits, dma_status_done, dbg_dma_h2d}
use linux_pci_driver.Hw.Reg.{decode}
use linux_pci_driver.Device.State.{VelocitorState, Env}
use linux_pci_driver.Device.Bar0.{bar0_read, bar0_write, reg_read, reg_write, access_ok}
use linux_pci_driver.Device.Bus.{wide, dma_run, dma_start}
use linux_pci_driver.Device.Bus.Transfer.{dma_run_h2d}
use linux_pci_driver.Driver.State.{VelocitorDev}
use linux_pci_driver.Driver.Vring.{lower_32_bits, upper_32_bits}
use linux_pci_driver.Driver.Dma.{start_transfer, dma_dbg, dma_dbg_write}

words_target : (a : ℕ) → a < 2 ^ 64 → wide (upper_32_bits a % 2 ^ 32) (lower_32_bits a % 2 ^ 32) ≡ a
words_target a lt = omega arith

small_word : (n : ℕ) → n < 2 ^ 32 → n % 2 ^ 32 ≡ n
small_word n lt = omega arith

started :
    (env : Env) (target offset len : ℕ) (bytes : List ℕ) (s : VelocitorState)
    → target < 2 ^ dma_bits
    → offset + len ≤ mem_size
    → length bytes ≡ len
    → env.pci_dma_read s.accesses target len ≡ (true, bytes)
    → let t = dma_run env (start_transfer env dbg_dma_h2d target offset len s) in
      (t.dma_status ≡ dma_status_done) × (load t.mem offset len ≡ bytes)
unfolding start_transfer bar0_write reg_write access_ok decode dma_start
started env target offset len bytes s near fits whole answer =
    let t = start_transfer env dbg_dma_h2d target offset len s in
    let at = words_target target (omega arith) in
    let from : t.dma_dev ≡ offset = small_word offset (omega arith) in
    let size : t.dma_len ≡ len = small_word len (omega arith) in
    let (done, moved) =
      dma_run_h2d env bytes t refl (omega (arith, at)) (omega (arith, from, size))
        (whole ∙ sym size) (rw (at, size) answer) in
    (
      done,
      subst (λ o. load (dma_run env t).mem o len ≡ bytes) from
          (subst (λ n. load (dma_run env t).mem t.dma_dev n ≡ bytes) size moved),
    )

-- A transfer to the device, from the driver's call to device memory. When the range lies in the host
-- pool below 2^42 and in device memory, the bus delivers the bytes of the pool, and the engine runs
-- before the poll ends, `velocitor_dma_dbg_write` returns 0 with no error code and device memory has
-- those bytes at the offset.
pub dma_dbg_write_lem :
    (env : Env) (offset pool_offset len : ℕ) (bytes : List ℕ) (d : VelocitorDev)
    (s : VelocitorState)
    → pool_offset + len ≤ host_pool_size
    → d.pool_dma + pool_offset < 2 ^ dma_bits
    → offset + len ≤ mem_size
    → length bytes ≡ len
    → env.pci_dma_read s.accesses (d.pool_dma + pool_offset) len ≡ (true, bytes)
    → let r = dma_dbg_write env (dma_run env) offset pool_offset len d s in
      (r.0 ≡ (0, some 0)) × (load r.1.mem offset len ≡ bytes)
unfolding dma_dbg_write dma_dbg bar0_read reg_read access_ok decode
dma_dbg_write_lem env offset pool_offset len bytes d s inside near fits whole answer =
    let target = d.pool_dma + pool_offset in
    let (done, moved) = started env target offset len bytes s near fits whole answer in
    let in_range : (leb (2 ^ 32) (pool_offset + len) || ltb host_pool_size (pool_offset + len))
        ≡ false =
      ground arith in
    rw (in_range, done) (refl, moved)
