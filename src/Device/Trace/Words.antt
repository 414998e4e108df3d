-- ===== src/Device/Trace/Words.antt =====
-- Device memory of qemu-device/velocitor.c as the 32-bit words that its firmware reads and writes.
use linux_pci_driver.Common.{
  ℕ, zero, suc, ◌*◌, ◌/◌, ◌%◌, ◌^◌, ◌<◌, ◌≡◌, ◌≢◌, ◌∙◌, arith, store, load, ℕ_discrete, subst, sym,
}
use linux_pci_driver.Hw.{mem_size}
use linux_pci_driver.Device.Trace.{mem_read32, mem_write32}
use linux_pci_driver.Device.Window.{fill_words, mem_fill_pattern}

-- A word that is written is read back, cut to 32 bits, at every offset of the same word.
pub mem_read32-mem_write32 :
    (m : ℕ → ℕ) (off v : ℕ) → mem_read32 (mem_write32 m off v) off ≡ v % 2 ^ 32
unfolding mem_read32 mem_write32 store load
mem_read32-mem_write32 m off v = ground arith

pub mem_read32-other :
    (m : ℕ → ℕ) (off at v : ℕ)
    → off / 4 ≢ at / 4
    → mem_read32 (mem_write32 m at v) off ≡ mem_read32 m off
unfolding mem_read32 mem_write32 store load
mem_read32-other m off at v ne = ground arith

fill_words-word :
    (m : ℕ → ℕ) (n i : ℕ) → i < n → mem_read32 (fill_words n m) (i * 4) ≡ i * 4 % 2 ^ 32
unfolding fill_words
fill_words-word m zero i lt = absurd (omega arith)
fill_words-word m (suc n) i lt = elim (ℕ_discrete i n) [
  | yes e ↦
      subst (λ (k : ℕ). mem_read32 (fill_words (suc n) m) (k * 4) ≡ k * 4 % 2 ^ 32) (sym e)
        (mem_read32-mem_write32 (fill_words n m) (n * 4) (n * 4))
  | no ne ↦
      mem_read32-other (fill_words n m) (i * 4) (n * 4) (n * 4) (omega arith)
      ∙ fill_words-word m n i (omega arith)
]

-- After power-up every aligned 32-bit word of device memory reads as its own offset.
pub mem_fill_pattern-word :
    (m : ℕ → ℕ) (off : ℕ) → off % 4 ≡ 0 → off < mem_size → mem_read32 (mem_fill_pattern m) off ≡ off
unfolding mem_fill_pattern
mem_fill_pattern-word m off even lt =
    let e : off / 4 * 4 ≡ off = omega arith in
    subst (λ (k : ℕ). mem_read32 (fill_words (mem_size / 4) m) k ≡ k % 2 ^ 32) e
      (fill_words-word m (mem_size / 4) (off / 4) (omega arith))
    ∙ omega arith
