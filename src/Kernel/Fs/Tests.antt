-- ===== src/Kernel/Fs/Tests.antt =====
-- A small file system: a superblock, a block of inodes, the bitmap in block 4 and a directory in block 5.
use base_system.Base.{
  ℕ, zero, suc, ◌⊎◌, ◌+◌, ◌%◌, ◌≤◌, ◌<◌, ◌≡◌, refl, ap, inl, inr, Bool, true, false, not, ◌&&◌,
  List, [], ◌∷◌, ◌++◌, arith, ◌==◌, ltb, if◌then◌else◌, get_or, replicate, codes, passes,
  passes_below, Bool-cases, Option, none,
}
use base_system.Kernel.Action.{ok}
use base_system.Kernel.Text.{Memory}
use base_system.Kernel.Fs.{Inode, Fs, iblock}
use base_system.Kernel.Fs.Blocks.{balloc}
use base_system.Kernel.Fs.Blocks.Bitmap.{IsBytes, IsLaidOut, is_free, balloc_lem}
use base_system.Kernel.Fs.Inodes.{no_inode, inode_at, iget, dinode_offset, load_dinode, save_dinode}
use base_system.Kernel.Fs.Inodes.Layout.{IsStorable}
use base_system.Kernel.Fs.Inodes.Update.{HasBytesOf, SameFields, dinode_roundtrip}
use base_system.Kernel.Fs.Inodes.Cache.{IsUnique}
use base_system.Kernel.Fs.Inodes.Gets.{Got, iget_lem}
use base_system.Kernel.Fs.Content.{readi, moved}
use base_system.Kernel.Fs.Content.Reading.{AreMapped, block_of, file_bytes, readi_lem}
use base_system.Kernel.Path.Elements.{text}
use base_system.Kernel.Fs.Dirs.{dirlookup}
use base_system.Kernel.Fs.Dirs.Lookup.{IsDirectory, Matches, found, dirlookup_lem}
use base_system.Kernel.Fs.Dirs.Reachable.{here, next, got, Reach-IsUnique}
use base_system.Kernel.Sysfile.{isdirempty}
use base_system.Kernel.Sysfile.Empty.{AreUnused, SomeUsed, isdirempty_lem}

abbrev no_devices : ℕ → Option ℕ
no_devices major = none

abbrev super : List ℕ
super = 32 ∷ 0 ∷ 0 ∷ 0 ∷ 20 ∷ 0 ∷ 0 ∷ 0 ∷ 8 ∷ []

-- The blocks below 7 are used.
abbrev bitmap : List ℕ
bitmap = 0x7f ∷ []

-- The entries `.` and `a`.
abbrev entries : List ℕ
entries = 1 ∷ 0 ∷ codes "." ++ replicate 13 0 ++ (2 ∷ 0 ∷ codes "a" ++ replicate 13 0)

abbrev image : ℕ → Memory
image b i =
    if b == 1
    then get_or super i 0
    else if b == 4
    then get_or bitmap i 0
    else if b == 5
    then get_or entries i 0
    else 0

abbrev root : Inode
root = record {
  dev = 1;
  inum = 1;
  ref = 1;
  busy = false;
  valid = true;
  uid = 0;
  type = 1;
  major = 0;
  minor = 0;
  nlink = 1;
  size = 32;
  addrs = 5 ∷ replicate 12 0;
}

abbrev fs : Fs
fs = record { disks = λ dev. image; icache = root ∷ no_inode ∷ [] }

all_bytes : List ℕ → Bool
all_bytes [] = true
all_bytes (b ∷ bs) = ltb b 256 && all_bytes bs

get_or-all_bytes : (bs : List ℕ) (i : ℕ) → all_bytes bs ≡ true → get_or bs i 0 < 256
unfolding all_bytes
get_or-all_bytes [] i h = omega arith
get_or-all_bytes (b ∷ bs) zero h = ground arith
get_or-all_bytes (b ∷ bs) (suc i) h = get_or-all_bytes bs i (ground arith)

image-IsBytes : (b : ℕ) → IsBytes (image b)
unfolding all_bytes
image-IsBytes b i =
    let in_super : get_or super i 0 < 256 = get_or-all_bytes super i refl in
    let in_bitmap : get_or bitmap i 0 < 256 = get_or-all_bytes bitmap i refl in
    let in_entries : get_or entries i 0 < 256 = get_or-all_bytes entries i refl in
    elim (Bool-cases (b == 1)) [
      | inl e ↦ rw e in_super
      | inr e ↦ elim (Bool-cases (b == 4)) [
        | inl d ↦ rw (e, d) in_bitmap
        | inr d ↦ elim (Bool-cases (b == 5)) [
          | inl c ↦ rw (e, d, c) in_entries
          | inr c ↦ rw (e, d, c) (omega arith)
        ]
      ]
    ]

cc_not : (b : Bool) → not b ≡ true → b ≡ false
cc_not b h = ground arith

fs-used : (b : ℕ) → b ≤ 4 → is_free fs 1 b ≡ false
unfolding passes
fs-used b l =
    let e = passes_below (λ c. not (is_free fs 1 c)) 5 b refl (omega arith) in
    cc_not (is_free fs 1 b) e

fs-IsLaidOut : IsLaidOut fs 1
fs-IsLaidOut = record { bytes = image-IsBytes; used = fs-used }

balloc_lem_example :
    let (r, s') = balloc 1 fs in
    (c : ℕ) × (r ≡ ok c)
    × (c < 32)
    × (is_free fs 1 c ≡ true)
    × (is_free s' 1 9 ≡ (is_free fs 1 9 && not (9 == c)))
    × (s'.disks 1 c 3 ≡ 0)
balloc_lem_example =
    balloc_lem fs 1 7 9 3 fs-IsLaidOut (omega arith) refl (omega arith) (omega arith)

fs-mapped : AreMapped fs 0 0 32
unfolding block_of
fs-mapped bn h l =
    let first : bn ≡ 0 = omega arith in
    rw first record { bounded = omega arith; mapped = refl; indirect = λ e. absurd (cc) }

readi_lem_example : readi no_devices 0 16 100 fs ≡ (ok (moved (file_bytes 16 fs 0 16)), fs)
readi_lem_example =
    readi_lem no_devices 0 16 100 fs refl (omega arith) (omega arith)
      (λ bn h l. fs-mapped bn (omega arith) (omega arith))

root-IsStorable : IsStorable root
root-IsStorable = record {
  type_width = omega arith;
  major_width = omega arith;
  minor_width = omega arith;
  nlink_width = omega arith;
  size_width = omega arith;
  addrs_width = (
    omega arith,
    (
      omega arith,
      (
        omega arith,
        (
          omega arith,
          (
            omega arith,
            (
              omega arith,
              (
                omega arith,
                (
                  omega arith,
                  (omega arith, (omega arith, (omega arith, (omega arith, (omega arith, tt))))),
                ),
              ),
            ),
          ),
        ),
      ),
    ),
  );
  addrs_number = refl;
}

dinode_roundtrip_example :
    let m = fs.disks 1 (iblock 1) in
    let o = dinode_offset root.inum in
    let saved = save_dinode root o m in
    HasBytesOf root (λ i. saved (o + i))
    × SameFields (load_dinode saved o no_inode) root
    × (saved (dinode_offset 2 + 8) ≡ m (dinode_offset 2 + 8))
dinode_roundtrip_example =
    dinode_roundtrip root no_inode 2 8 (fs.disks 1 (iblock 1)) root-IsStorable refl
      (λ e. absurd (omega arith)) (omega arith)

only_root : (i : ℕ) → 0 < (inode_at fs i).ref → i ≡ 0
only_root zero h = refl
only_root (suc zero) h = absurd (omega arith)
only_root (suc (suc i)) h = absurd (omega arith)

fs-IsUnique : IsUnique fs
unfolding IsUnique
fs-IsUnique i j a b c d = omega (arith, only_root i a, only_root j b)

iget_lem_example : let (r, s') = iget 1 2 fs in Got 1 2 fs r s' × IsUnique s'
iget_lem_example = iget_lem 1 2 fs fs-IsUnique

fs-IsDirectory : IsDirectory fs 0
fs-IsDirectory = record { typed = refl; whole = refl; small = omega arith; there = fs-mapped }

head_of : List ℕ → ℕ
head_of name = get_or name 0 0

a_dot : ¬ (codes "a" ≡ codes ".")
unfolding head_of
a_dot e = let c : 97 ≡ 46 = ap head_of e in absurd (omega (arith, c))

dot_first : (o : ℕ) → o < 16 → o % 16 ≡ 0 → ¬ Matches fs 0 (codes "a") o
unfolding file_bytes block_of text
dot_first o l z = let at : o ≡ 0 = omega arith in rw at (λ m. a_dot m.1)

a_second : Matches fs 0 (codes "a") 16
unfolding file_bytes block_of text
a_second = (λ e. absurd (omega (arith, e)), refl)

dirlookup_lem_example : dirlookup no_devices 0 (codes "a") fs ≡ found fs 0 16 fs
dirlookup_lem_example =
    dirlookup_lem no_devices 0 16 (codes "a") fs fs-IsDirectory (omega arith) refl a_second
      dot_first

abbrev unused : Fs
unused = record { disks = λ dev. image; icache = replicate 3 no_inode }

all_unused : (i : ℕ) → (inode_at unused i).ref ≡ 0
all_unused zero = refl
all_unused (suc zero) = refl
all_unused (suc (suc zero)) = refl
all_unused (suc (suc (suc i))) = refl

Reach-IsUnique_example : IsUnique (iget 1 2 (iget 1 1 unused).1).1
Reach-IsUnique_example =
    Reach-IsUnique no_devices unused (iget 1 2 (iget 1 1 unused).1).1 all_unused
      (next (next here (got 1 1)) (got 1 2))

isdirempty_lem_example :
    ((isdirempty no_devices 0 fs ≡ (ok true, fs)) × AreUnused fs 0 32)
    ⊎ ((isdirempty no_devices 0 fs ≡ (ok false, fs)) × SomeUsed fs 0 32)
isdirempty_lem_example = isdirempty_lem no_devices 0 fs fs-IsDirectory
