-- ===== src/Common/Words.antt =====
-- A word put together again from its bytes, and from its halves.
use Prim.Native.Nat.{ℕ, ◌+◌, ◌*◌, ◌/◌, ◌%◌, ◌^◌, ◌<◌}
use mathlib.Core.Path.{◌≡◌}
use native.Mathlib.Omega.{arith}

pub word16 : (w : ℕ) → w < 2 ^ 16 → w % 256 % 256 + 256 * (w / 256 % 256 % 256) ≡ w
word16 w lt = omega arith

pub word32 :
    (w : ℕ)
    → w < 2 ^ 32
    → w % 256 % 256
        + 256 * (w / 256 % 256 % 256)
        + 65536 * (w / 65536 % 256 % 256)
        + 16777216 * (w / 16777216 % 256 % 256)
      ≡ w
word32 w lt = omega arith

pub word64 : (w : ℕ) → w < 2 ^ 64 → w % 2 ^ 32 + 2 ^ 32 * (w / 2 ^ 32) ≡ w
word64 w lt = omega arith
