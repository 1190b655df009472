-- ===== src/Kernel/Fs/Inodes/Layout.antt =====
-- The inodes of kernel/fs.c on the disk: what `iupdate` writes and `ilock` reads.
use base_system.Base.{
  ℕ, ◌+◌, ◌*◌, ◌/◌, ◌%◌, ◌^◌, ◌≤◌, ◌<◌, ◌≡◌, ◌⊎◌, refl, sym, ap, ap₂, ◌∙◌, false, List, [], ◌∷◌,
  arith, ◌==◌, length, inl,
}
use base_system.Kernel.Text.{Memory, store}
use base_system.Kernel.Fs.{Inode, short_at, uint_at, put_short, put_uint}
use base_system.Kernel.Fs.Inodes.{ndirect, addrs_at, put_addrs, load_dinode, save_dinode}

-- Numbers of 32 bits.
abbrev pub AreUints : List ℕ → Type 0
AreUints [] = Unit
AreUints (a ∷ addrs) = (a < 2 ^ 32) × AreUints addrs

store_apart : (p v i : ℕ) (m : Memory) → (i == p) ≡ false → store p v m i ≡ m i
store_apart p v i m h = rw h refl

store_here : (p v : ℕ) (m : Memory) → store p v m p ≡ v
store_here p v m = ground arith

put_short_apart : (p v i : ℕ) (m : Memory) → (i < p) ⊎ (p + 2 ≤ i) → put_short p v m i ≡ m i
put_short_apart p v i m h = ground arith

pub put_uint_apart : (p v i : ℕ) (m : Memory) → (i < p) ⊎ (p + 4 ≤ i) → put_uint p v m i ≡ m i
put_uint_apart p v i m h = ground arith

short_at-put_short : (p v : ℕ) (m : Memory) → v < 65536 → short_at (put_short p v m) p ≡ v
short_at-put_short p v m l = ground arith

put_uint_bytes :
    (p v : ℕ) (m : Memory)
    → (put_uint p v m p ≡ v % 256)
      × (put_uint p v m (p + 1) ≡ v / 256 % 256)
      × (put_uint p v m (p + 2) ≡ v / 65536 % 256)
      × (put_uint p v m (p + 3) ≡ v / 16777216 % 256)
put_uint_bytes p v m = (ground arith, ground arith, ground arith, ground arith)

pub uint_at-put_uint : (p v : ℕ) (m : Memory) → v < 2 ^ 32 → uint_at (put_uint p v m) p ≡ v
uint_at-put_uint p v m l = let (a, b, c, d) = put_uint_bytes p v m in rw (a, b, c, d) (omega arith)

short_same :
    (p : ℕ) (m n : Memory) → ((i : ℕ) → p ≤ i → i < p + 2 → n i ≡ m i) → short_at n p ≡ short_at m p
short_same p m n h =
    let a = h p (omega arith) (omega arith) in
    let b = h (p + 1) (omega arith) (omega arith) in rw (a, b) refl

pub uint_same :
    (p : ℕ) (m n : Memory) → ((i : ℕ) → p ≤ i → i < p + 4 → n i ≡ m i) → uint_at n p ≡ uint_at m p
uint_same p m n h =
    let a = h p (omega arith) (omega arith) in
    let b = h (p + 1) (omega arith) (omega arith) in
    let c = h (p + 2) (omega arith) (omega arith) in
    let d = h (p + 3) (omega arith) (omega arith) in rw (a, b, c, d) refl

put_addrs_apart :
    (addrs : List ℕ) (p i : ℕ) (m : Memory)
    → (i < p) ⊎ (p + length addrs * 4 ≤ i)
    → put_addrs addrs p m i ≡ m i
unfolding put_addrs
put_addrs_apart [] p i m h = refl
put_addrs_apart (a ∷ addrs) p i m h =
    put_addrs_apart addrs (p + 4) i (put_uint p a m) (ground arith)
    ∙ put_uint_apart p a i m (ground arith)

addrs_at-put_addrs :
    (addrs : List ℕ) (p : ℕ) (m : Memory)
    → AreUints addrs
    → addrs_at (length addrs) (put_addrs addrs p m) p ≡ addrs
unfolding addrs_at put_addrs
addrs_at-put_addrs [] p m h = refl
addrs_at-put_addrs (a ∷ addrs) p m (l, h) =
    let first =
      uint_same p (put_uint p a m) (put_addrs addrs (p + 4) (put_uint p a m))
        (λ i u v. put_addrs_apart addrs (p + 4) i (put_uint p a m) (inl v)) in
    ap₂ ◌∷◌ (first ∙ uint_at-put_uint p a m l) (addrs_at-put_addrs addrs (p + 4) (put_uint p a m) h)

-- Fields in front of a write.
short_before-put_short :
    (p q v : ℕ) (m : Memory) → p + 2 ≤ q → short_at (put_short q v m) p ≡ short_at m p
short_before-put_short p q v m l =
    short_same p m (put_short q v m) (λ i _ u. put_short_apart q v i m (omega arith))

short_before-put_uint :
    (p q v : ℕ) (m : Memory) → p + 2 ≤ q → short_at (put_uint q v m) p ≡ short_at m p
short_before-put_uint p q v m l =
    short_same p m (put_uint q v m) (λ i _ u. put_uint_apart q v i m (omega arith))

short_before-put_addrs :
    (p q : ℕ) (addrs : List ℕ) (m : Memory)
    → p + 2 ≤ q
    → short_at (put_addrs addrs q m) p ≡ short_at m p
short_before-put_addrs p q addrs m l =
    short_same p m (put_addrs addrs q m) (λ i _ u. put_addrs_apart addrs q i m (inl (omega arith)))

uint_before-put_addrs :
    (p q : ℕ) (addrs : List ℕ) (m : Memory)
    → p + 4 ≤ q
    → uint_at (put_addrs addrs q m) p ≡ uint_at m p
uint_before-put_addrs p q addrs m l =
    uint_same p m (put_addrs addrs q m) (λ i _ u. put_addrs_apart addrs q i m (inl (omega arith)))

-- An inode whose fields have the widths of their types.
pub record IsStorable (ip : Inode) : Type 0 where
  pub type_width : ip.type < 65536
  pub major_width : ip.major < 65536
  pub minor_width : ip.minor < 65536
  pub nlink_width : ip.nlink < 65536
  pub size_width : ip.size < 2 ^ 32
  pub addrs_width : AreUints ip.addrs
  pub addrs_number : length ip.addrs ≡ ndirect + 1

-- What `ilock` reads of an inode at the place where `iupdate` wrote it has all the fields that `iupdate`
-- wrote, if these have the widths of their types.
pub load-save_dinode :
    (ip q : Inode) (o : ℕ) (m : Memory)
    → IsStorable ip
    → let p = load_dinode (save_dinode ip o m) o q in
      (p.type ≡ ip.type)
      × (p.major ≡ ip.major)
      × (p.minor ≡ ip.minor)
      × (p.nlink ≡ ip.nlink)
      × (p.size ≡ ip.size)
      × (p.addrs ≡ ip.addrs)
unfolding load_dinode save_dinode
load-save_dinode ip q o m w =
    let m1 = put_short o ip.type m in
    let m2 = put_short (o + 2) ip.major m1 in
    let m3 = put_short (o + 4) ip.minor m2 in
    let m4 = put_short (o + 6) ip.nlink m3 in
    let m5 = put_uint (o + 8) ip.size m4 in
    let shorts : (p : ℕ)
        → p + 2 ≤ o + 8
        → short_at (put_addrs ip.addrs (o + 12) m5) p ≡ short_at m4 p =
      λ p l.
        short_before-put_addrs p (o + 12) ip.addrs m5 (omega arith)
        ∙ short_before-put_uint p (o + 8) ip.size m4 l in
    (
      shorts o (omega arith)
          ∙ short_before-put_short o (o + 6) ip.nlink m3 (omega arith)
          ∙ short_before-put_short o (o + 4) ip.minor m2 (omega arith)
          ∙ short_before-put_short o (o + 2) ip.major m1 (omega arith)
          ∙ short_at-put_short o ip.type m w.type_width,
      shorts (o + 2) (omega arith)
          ∙ short_before-put_short (o + 2) (o + 6) ip.nlink m3 (omega arith)
          ∙ short_before-put_short (o + 2) (o + 4) ip.minor m2 (omega arith)
          ∙ short_at-put_short (o + 2) ip.major m1 w.major_width,
      shorts (o + 4) (omega arith)
          ∙ short_before-put_short (o + 4) (o + 6) ip.nlink m3 (omega arith)
          ∙ short_at-put_short (o + 4) ip.minor m2 w.minor_width,
      shorts (o + 6) (omega arith) ∙ short_at-put_short (o + 6) ip.nlink m3 w.nlink_width,
      uint_before-put_addrs (o + 8) (o + 12) ip.addrs m5 (omega arith)
          ∙ uint_at-put_uint (o + 8) ip.size m4 w.size_width,
      ap (λ k. addrs_at k (put_addrs ip.addrs (o + 12) m5) (o + 12)) (sym w.addrs_number)
          ∙ addrs_at-put_addrs ip.addrs (o + 12) m5 w.addrs_width,
    )

-- `iupdate` changes no byte of the block outside the 64 of the inode.
pub save_dinode_apart :
    (ip : Inode) (o i : ℕ) (m : Memory)
    → IsStorable ip
    → (i < o) ⊎ (o + 64 ≤ i)
    → save_dinode ip o m i ≡ m i
unfolding save_dinode
save_dinode_apart ip o i m w h =
    let m1 = put_short o ip.type m in
    let m2 = put_short (o + 2) ip.major m1 in
    let m3 = put_short (o + 4) ip.minor m2 in
    let m4 = put_short (o + 6) ip.nlink m3 in
    let m5 = put_uint (o + 8) ip.size m4 in
    put_addrs_apart ip.addrs (o + 12) i m5 (ground (arith, w.addrs_number))
    ∙ put_uint_apart (o + 8) ip.size i m4 (ground arith)
    ∙ put_short_apart (o + 6) ip.nlink i m3 (ground arith)
    ∙ put_short_apart (o + 4) ip.minor i m2 (ground arith)
    ∙ put_short_apart (o + 2) ip.major i m1 (ground arith)
    ∙ put_short_apart o ip.type i m (ground arith)
