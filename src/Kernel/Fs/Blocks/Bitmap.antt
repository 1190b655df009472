-- ===== src/Kernel/Fs/Blocks/Bitmap.antt =====
-- The allocator of kernel/fs.c on the bitmap of free blocks.
use native.Mathlib.Decide.{ℕ_discrete}
use Prim.Native.Nat.{bit_and, bit_or}
use base_system.Base.{
  ℕ, ◌+◌, ◌-◌, ◌/◌, ◌%◌, ◌≤◌, ◌<◌, ◌≡◌, refl, ap, ◌∙◌, ◌≢◌, Bool, true, false, ◌&&◌, ◌||◌, not,
  arith, ◌==◌, leb, Bool-cases, inl, inr,
}
use base_system.Kernel.Action.{ok, panic}
use base_system.Kernel.Text.{Memory, store}
use base_system.Kernel.Fs.{Fs, put_disk, bsize, bpb, bblock, superblock_of}
use base_system.Kernel.Fs.Blocks.{
  zeroed, bzero, mask, is_clear, set_bit, clear_bit, take_block, balloc,
}
use base_system.Kernel.Fs.Blocks.Bits.{bits_lem}
use base_system.Kernel.Fs.Blocks.Search.{balloc_from_some, balloc_from_none}

abbrev pub IsBytes : Memory → Type 0
IsBytes m = (i : ℕ) → m i < 256

same_bit : (i j : ℕ) → (i == j) ≡ (i / 8 == j / 8 && i % 8 == j % 8)
same_bit i j = ground arith

store_self : (p v : ℕ) (m : Memory) → store p v m p ≡ v
store_self p v m = ground arith

store_ne : (p v q : ℕ) (m : Memory) → q ≢ p → store p v m q ≡ m q
store_ne p v q m h = ground arith

-- The bit of a number after one bit was set or cleared.
pub set_bit_lem :
    (m : Memory) (i j : ℕ) → IsBytes m → is_clear (set_bit i m) j ≡ (not (i == j) && is_clear m j)
set_bit_lem m i j b =
    let (f, _, _, _) =
      bits_lem (m (j / 8)) (i % 8) (j % 8) (b (j / 8)) (omega arith) (omega arith) in
    elim (ℕ_discrete (j / 8) (i / 8)) [
      | yes e ↦
          let v = bit_or (m (i / 8)) (mask i) in
          let at : set_bit i m (j / 8) ≡ bit_or (m (j / 8)) (mask i) =
            rw e (store_self (i / 8) v m) in
          let q : (i == j) ≡ (i % 8 == j % 8) = ground (arith, same_bit i j) in rw (at, q) f
      | no ne ↦
          let at = store_ne (i / 8) (bit_or (m (i / 8)) (mask i)) (j / 8) m ne in
          let q : (i == j) ≡ false = ground (arith, same_bit i j) in rw (at, q) refl
    ]

pub clear_bit_lem :
    (m : Memory) (i j : ℕ) → IsBytes m → is_clear (clear_bit i m) j ≡ (i == j || is_clear m j)
clear_bit_lem m i j b =
    let (_, f, _, _) =
      bits_lem (m (j / 8)) (i % 8) (j % 8) (b (j / 8)) (omega arith) (omega arith) in
    elim (ℕ_discrete (j / 8) (i / 8)) [
      | yes e ↦
          let v = bit_and (m (i / 8)) (255 - mask i) in
          let at : clear_bit i m (j / 8) ≡ bit_and (m (j / 8)) (255 - mask i) =
            rw e (store_self (i / 8) v m) in
          let q : (i == j) ≡ (i % 8 == j % 8) = ground (arith, same_bit i j) in rw (at, q) f
      | no ne ↦
          let at = store_ne (i / 8) (bit_and (m (i / 8)) (255 - mask i)) (j / 8) m ne in
          let q : (i == j) ≡ false = ground (arith, same_bit i j) in rw (at, q) refl
    ]

-- Where the bitmap says that block `j` is free.
abbrev pub is_free : Fs → ℕ → ℕ → Bool
is_free s dev j =
    is_clear (s.disks dev (bblock j (superblock_of (s.disks dev 1)).ninodes)) (j % bpb)

-- The blocks in front of the data are not free: the superblock, the inodes and the bitmap.
pub record IsLaidOut (s : Fs) (dev : ℕ) : Type 0 where
  pub bytes : (b : ℕ) → IsBytes (s.disks dev b)
  pub used :
      (b : ℕ)
      → b ≤ bblock (superblock_of (s.disks dev 1)).size (superblock_of (s.disks dev 1)).ninodes
      → is_free s dev b ≡ false

above_used :
    (s : Fs) (dev c : ℕ)
    → IsLaidOut s dev
    → is_free s dev c ≡ true
    → bblock (superblock_of (s.disks dev 1)).size (superblock_of (s.disks dev 1)).ninodes < c
above_used s dev c w free =
    let sb = superblock_of (s.disks dev 1) in
    elim (Bool-cases (leb c (bblock sb.size sb.ninodes))) [
      | inl l ↦ let no = w.used c (ground arith) in absurd (cc)
      | inr g ↦ ground arith
    ]

pub put_disk_self :
    (disks : ℕ → ℕ → Memory) (dev b : ℕ) (m : Memory) → put_disk disks dev b m dev b ≡ m
put_disk_self disks dev b m = ground arith

pub put_disk_ne :
    (disks : ℕ → ℕ → Memory) (dev b c : ℕ) (m : Memory)
    → c ≢ b
    → put_disk disks dev b m dev c ≡ disks dev c
put_disk_ne disks dev b c m h = ground arith

and_swap : (x y : Bool) → (not x && y) ≡ (y && not x)
and_swap x y = ground arith

and_true : (y : Bool) → y ≡ (y && not false)
and_true y = ground arith

pub different_group : (ninodes j c : ℕ) → bblock j ninodes ≢ bblock c ninodes → (j == c) ≡ false
different_group ninodes j c ne = elim (Bool-cases (j == c)) [
  | inl e ↦ let same : j ≡ c = ground arith in absurd (ne (ap (λ x. bblock x ninodes) same))
  | inr e ↦ e
]

take_block-returned : (s : Fs) (dev bno bi c : ℕ) → (take_block dev bno bi c s).0 ≡ ok c
unfolding take_block bzero
take_block-returned s dev bno bi c = refl

take_block-zero :
    (s : Fs) (dev bno bi c i : ℕ) → i < bsize → (take_block dev bno bi c s).1.disks dev c i ≡ 0
unfolding take_block bzero
take_block-zero s dev bno bi c i l = ground arith

-- The disk after `take_block`, at another block than the one that is taken.
take_block_ne :
    (s : Fs) (dev bno bi c x : ℕ)
    → x ≢ c
    → (take_block dev bno bi c s).1.disks dev x
      ≡ put_disk s.disks dev bno (set_bit bi (s.disks dev bno)) dev x
unfolding take_block bzero
take_block_ne s dev bno bi c x h =
    let after = put_disk s.disks dev bno (set_bit bi (s.disks dev bno)) in
    put_disk_ne after dev c x (zeroed (after dev c)) h

take_block-is_free :
    (s : Fs) (dev c j : ℕ)
    → IsLaidOut s dev
    → let ninodes = (superblock_of (s.disks dev 1)).ninodes in
      1 ≢ c
      → bblock c ninodes ≢ c
      → bblock j ninodes ≢ c
      → 1 ≢ bblock c ninodes
      → c < (superblock_of (s.disks dev 1)).size
      → is_free (take_block dev (bblock c ninodes) (c % bpb) c s).1 dev j
        ≡ (is_free s dev j && not (j == c))
take_block-is_free s dev c j w a b d e lt =
    let ninodes = (superblock_of (s.disks dev 1)).ninodes in
    let bno = bblock c ninodes in
    let m = set_bit (c % bpb) (s.disks dev bno) in
    let super = take_block_ne s dev bno (c % bpb) c 1 a ∙ put_disk_ne s.disks dev bno 1 m e in
    let at = take_block_ne s dev bno (c % bpb) c (bblock j ninodes) d in
    rw super (
      rw at (elim (ℕ_discrete (bblock j ninodes) bno) [
        | yes eq ↦ rw eq (
            rw
              (
                put_disk_self s.disks dev bno m,
                set_bit_lem (s.disks dev bno) (c % bpb) (j % bpb) (w.bytes bno),
              )
              (let q : (c % bpb == j % bpb) ≡ (j == c) = ground arith in
                rw q (and_swap (j == c) _)))
        | no ne ↦
            rw (put_disk_ne s.disks dev bno (bblock j ninodes) m ne)
              (let q : (j == c) ≡ false = different_group ninodes j c ne in rw q (and_true _))
      ]))

-- On a device whose blocks in front of the data are marked as used: with a free block below the size,
-- `balloc` returns a block that was free and is below the size. Then it is the only block whose mark
-- has changed (`j` is any one below the size), and its bytes are zero (`i` is any offset).
pub balloc_lem :
    (s : Fs) (dev f j i : ℕ)
    → IsLaidOut s dev
    → f < (superblock_of (s.disks dev 1)).size
    → is_free s dev f ≡ true
    → j < (superblock_of (s.disks dev 1)).size
    → i < bsize
    → let (r, s') = balloc dev s in
      (c : ℕ) × (r ≡ ok c)
      × (c < (superblock_of (s.disks dev 1)).size)
      × (is_free s dev c ≡ true)
      × (is_free s' dev j ≡ (is_free s dev j && not (j == c)))
      × (s'.disks dev c i ≡ 0)
balloc_lem s dev f j i w h free g l =
    let sb = superblock_of (s.disks dev 1) in
    let (c, eq, lt, free_c) =
      balloc_from_some (sb.size / bpb + 1) dev sb 0 f s refl (omega arith) h (omega arith) free in
    let e : balloc dev s ≡ take_block dev (bblock c sb.ninodes) (c % bpb) c s =
      unfold balloc in eq in
    let apart = above_used s dev c w free_c in
    rw e (
      c,
      take_block-returned s dev (bblock c sb.ninodes) (c % bpb) c,
      lt,
      free_c,
      take_block-is_free s dev c j w (omega (arith, apart)) (omega (arith, apart, lt))
          (omega (arith, apart, g)) (omega (arith, apart)) lt,
      take_block-zero s dev (bblock c sb.ninodes) (c % bpb) c i l,
    )

-- Without a free block below the size, `balloc` panics and changes nothing.
pub balloc_full :
    (s : Fs) (dev : ℕ)
    → ((f : ℕ) → f < (superblock_of (s.disks dev 1)).size → is_free s dev f ≡ false)
    → balloc dev s ≡ (panic, s)
unfolding balloc
balloc_full s dev full =
    let sb = superblock_of (s.disks dev 1) in
    balloc_from_none (sb.size / bpb + 1) dev sb 0 s refl full
