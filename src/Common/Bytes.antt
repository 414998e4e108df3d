-- ===== src/Common/Bytes.antt =====
-- Little-endian words as byte lists, and memories as functions of the byte address.
use Prim.Native.Nat.{ℕ, zero, suc, ◌+◌, ◌*◌, ◌/◌, ◌%◌, ◌^◌}
use mathlib.Core.List.{List, [], ◌∷◌, ◌++◌}
use linux_pci_driver.Common.Tests.{◌==◌, if◌then◌else◌}
use linux_pci_driver.Common.Lists.{get_or}

-- A byte of a buffer; past its end, and for what is no byte, some byte.
abbrev pub byte_at : List ℕ → ℕ → ℕ
byte_at l i = get_or l i 0 % 256

-- `cpu_to_le16`, `cpu_to_le32`, `cpu_to_le64` as the bytes that they put in memory.
abbrev pub to_le16 : ℕ → List ℕ
to_le16 w = w % 256 ∷ w / 256 % 256 ∷ []

abbrev pub to_le32 : ℕ → List ℕ
to_le32 w = w % 256 ∷ w / 256 % 256 ∷ w / 65536 % 256 ∷ w / 16777216 % 256 ∷ []

abbrev pub to_le64 : ℕ → List ℕ
to_le64 w = to_le32 (w % 2 ^ 32) ++ to_le32 (w / 2 ^ 32)

-- `le16_to_cpu`, `le32_to_cpu`, `le64_to_cpu` of the bytes at an offset of a buffer.
abbrev pub le16 : List ℕ → ℕ → ℕ
le16 l o = byte_at l o + 256 * byte_at l (o + 1)

abbrev pub le32 : List ℕ → ℕ → ℕ
le32 l o =
    byte_at l o + 256 * byte_at l (o + 1) + 65536 * byte_at l (o + 2) + 16777216 * byte_at l (o + 3)

abbrev pub le64 : List ℕ → ℕ → ℕ
le64 l o = le32 l o + 2 ^ 32 * le32 l (o + 4)

-- `memcpy` of a byte list into a memory.
unfoldable pub store : (ℕ → ℕ) → ℕ → List ℕ → ℕ → ℕ
store m a [] i = m i
store m a (x ∷ xs) i = if i == a then x else store m (a + 1) xs i

-- The `n` bytes of a memory from an address.
unfoldable pub load : (ℕ → ℕ) → ℕ → ℕ → List ℕ
load m a zero = []
load m a (suc n) = m a ∷ load m (a + 1) n
