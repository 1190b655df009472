-- ===== src/Base/Int.antt =====
-- The C `int` results of the kernel: over the native numbers, under the library's names.
use Prim.Native.Nat.{ℕ}

-- `negsuc n` is -(n + 1).
pub data ℤ : Type 0 where
  pos : ℕ → ℤ
  negsuc : ℕ → ℤ

-- The error return of nearly every function of the kernel.
abbrev pub minus_one : ℤ
minus_one = negsuc 0
