-- ===== src/Mkfs/Bitmap.antt =====
-- The bitmap that `balloc` of mkfs/mkfs.c writes, as the kernel tests its bits.
use base_system.Base.{
  ℕ, zero, suc, ◌+◌, ◌*◌, ◌/◌, ◌%◌, ◌<◌, ◌≡◌, refl, ◌∙◌, inl, inr, true, false, not, ◌&&◌, arith,
  ◌==◌, ltb, leb, Bool-cases,
}
use Prim.Native.Nat.{bit_and, bit_and-bitwise}
use base_system.Kernel.Action.{ok}
use base_system.Kernel.Text.{Memory}
use base_system.Kernel.Fs.Blocks.{is_clear, set_bit, mask}
use base_system.Kernel.Fs.Blocks.Bits.{bits_lem}
use base_system.Kernel.Fs.Blocks.Bitmap.{IsBytes, set_bit_lem}
use base_system.Mkfs.{Image, mark_from, balloc}

set_bit-IsBytes : (m : Memory) (i : ℕ) → IsBytes m → IsBytes (set_bit i m)
set_bit-IsBytes m i b j =
    let (_, _, l, _) = bits_lem (m (i / 8)) (i % 8) 0 (b (i / 8)) (omega arith) (omega arith) in
    elim (Bool-cases (j == i / 8)) [ inl e ↦ rw e l | inr e ↦ rw e (b j) ]

zero-bit_and : (b : ℕ) → bit_and 0 b ≡ 0
zero-bit_and b = bit_and-bitwise 0 b

-- Marking `k` bits from bit `i` on.
mark_from_lem :
    (k i j : ℕ) (m : Memory)
    → IsBytes m
    → is_clear (mark_from k i m) j ≡ (not (leb i j && ltb j (i + k)) && is_clear m j)
unfolding mark_from
mark_from_lem zero i j m b = let e : leb i j && ltb j (i + 0) ≡ false = ground arith in rw e refl
mark_from_lem (suc k) i j m b =
    let h = mark_from_lem k (i + 1) j (set_bit i m) (set_bit-IsBytes m i b) in
    let s = set_bit_lem m i j b in h ∙ rw s (ground arith)

-- The sector of the bitmap.
abbrev pub bitmap_sector : ℕ
bitmap_sector = 28

-- `balloc` of a number below 4096 writes a sector in which bit `j` is clear exactly if `j` is that
-- number at least, and changes no counter.
pub balloc_lem :
    (used j : ℕ) (s : Image)
    → used < 4096
    → ((balloc used s).0 ≡ ok tt)
      × (is_clear ((balloc used s).1.sectors bitmap_sector) j ≡ leb used j)
      × ((balloc used s).1.freeblock ≡ s.freeblock)
unfolding balloc
balloc_lem used j s l =
    let e : leb (512 * 8) used ≡ false = ground arith in
    let none_set : is_clear (λ _. 0) j ≡ true = rw (zero-bit_and (mask j)) refl in
    rw e
      (refl, mark_from_lem used 0 j (λ _. 0) (λ i. omega arith) ∙ rw none_set (ground arith), refl)
