-- ===== src/Kernel/Fs/Dirs/Uses.antt =====
-- All the operations of kernel/fs.c on inodes, one after the other, and the cache of inodes.
use base_system.Base.{
  ℕ, zero, suc, ◌+◌, ◌/◌, refl, Option, none, some, List, ◌==◌, ltb, length, Bool-cases, inl, inr,
}
use base_system.Kernel.Action.{Keeps, keeps_then}
use base_system.Kernel.Fs.{short_at, iblock}
use base_system.Kernel.Fs.Inodes.{inode_at, iget, ialloc_from, ialloc, dinode_offset}
use base_system.Kernel.Fs.Inodes.Cache.{IsUnique, disk-IsUnique}
use base_system.Kernel.Fs.Inodes.Gets.{iget-IsUnique}
use base_system.Kernel.Fs.Content.{Io, refused, device, moved, t_dir, readi, writei, iput}
use base_system.Kernel.Fs.Content.Keeping.{readi-IsUnique, writei-IsUnique, iput-IsUnique}
use base_system.Kernel.Fs.Dirs.{
  dirent_size, inum_of, name_of, namecmp, is_zero, whole_dirent, read_dirent, lookup_from,
  dirlookup, empty_from, dirent_bytes, whole_write, link_new, dirlink,
}

ialloc_from-IsUnique : (k dev type inum : ℕ) → Keeps IsUnique (ialloc_from k dev type inum)
unfolding ialloc_from
ialloc_from-IsUnique zero dev type inum s w = w
ialloc_from-IsUnique (suc k) dev type inum s w =
    elim (Bool-cases (short_at (s.disks dev (iblock inum)) (dinode_offset inum) == 0)) [
      | inl e ↦ rw e (iget-IsUnique dev inum _ (disk-IsUnique s _ refl w))
      | inr e ↦ rw e (ialloc_from-IsUnique k dev type (inum + 1) s w)
    ]

pub ialloc-IsUnique : (dev type : ℕ) → Keeps IsUnique (ialloc dev type)
unfolding ialloc
ialloc-IsUnique dev type s w = ialloc_from-IsUnique _ dev type 1 s w

whole_dirent-IsUnique : (r : Io (List ℕ)) → Keeps IsUnique (whole_dirent r)
whole_dirent-IsUnique refused s w = w
whole_dirent-IsUnique (device r) s w = w
whole_dirent-IsUnique (moved bytes) s w = elim (Bool-cases (length bytes == dirent_size)) [
  | inl e ↦ rw e w
  | inr e ↦ rw e w
]

read_dirent-IsUnique :
    (devices : ℕ → Option ℕ) (i off : ℕ) → Keeps IsUnique (read_dirent devices i off)
unfolding read_dirent
read_dirent-IsUnique devices i off s w =
    keeps_then IsUnique (readi devices i off dirent_size) _ s w
      (readi-IsUnique devices i off dirent_size) whole_dirent-IsUnique

lookup_from-IsUnique :
    (k : ℕ) (devices : ℕ → Option ℕ) (i : ℕ) (name : List ℕ) (off : ℕ)
    → Keeps IsUnique (lookup_from k devices i name off)
unfolding lookup_from
lookup_from-IsUnique zero devices i name off s w = w
lookup_from-IsUnique (suc k) devices i name off s w =
    let ip = inode_at s i in
    let rest = lookup_from-IsUnique k devices i name (off + dirent_size) in
    elim (Bool-cases (ltb off ip.size)) [
      | inl e ↦ rw e (
          keeps_then IsUnique (read_dirent devices i off) _ s w (read_dirent-IsUnique devices i off)
            (λ de s1 w1. elim (Bool-cases (inum_of de == 0)) [
              | inl z ↦ rw z (rest s1 w1)
              | inr z ↦ elim (Bool-cases (is_zero (namecmp name (name_of de)))) [
                | inl c ↦ rw z (
                    rw c (
                      keeps_then IsUnique (iget ip.dev (inum_of de)) _ s1 w1
                        (iget-IsUnique ip.dev (inum_of de)) (λ _ s2 w2. w2)))
                | inr c ↦ rw z (rw c (rest s1 w1))
              ]
            ]))
      | inr e ↦ rw e w
    ]

pub dirlookup-IsUnique :
    (devices : ℕ → Option ℕ) (i : ℕ) (name : List ℕ) → Keeps IsUnique (dirlookup devices i name)
unfolding dirlookup
dirlookup-IsUnique devices i name s w = elim (Bool-cases ((inode_at s i).type == t_dir)) [
  | inl e ↦ rw e (lookup_from-IsUnique _ devices i name 0 s w)
  | inr e ↦ rw e w
]

empty_from-IsUnique :
    (k : ℕ) (devices : ℕ → Option ℕ) (i off : ℕ) → Keeps IsUnique (empty_from k devices i off)
unfolding empty_from
empty_from-IsUnique zero devices i off s w = w
empty_from-IsUnique (suc k) devices i off s w = elim (Bool-cases (ltb off (inode_at s i).size)) [
  | inl e ↦ rw e (
      keeps_then IsUnique (read_dirent devices i off) _ s w (read_dirent-IsUnique devices i off)
        (λ de s1 w1. elim (Bool-cases (inum_of de == 0)) [
          | inl z ↦ rw z w1
          | inr z ↦ rw z (empty_from-IsUnique k devices i (off + dirent_size) s1 w1)
        ]))
  | inr e ↦ rw e w
]

whole_write-IsUnique : (r : Io ℕ) → Keeps IsUnique (whole_write r)
whole_write-IsUnique refused s w = w
whole_write-IsUnique (device r) s w = w
whole_write-IsUnique (moved n) s w = elim (Bool-cases (n == dirent_size)) [
  | inl e ↦ rw e w
  | inr e ↦ rw e w
]

link_new-IsUnique :
    (devices : ℕ → Option ℕ) (i : ℕ) (name : List ℕ) (inum : ℕ) (found : Option (ℕ × ℕ))
    → Keeps IsUnique (link_new devices i name inum found)
link_new-IsUnique devices i name inum (some (j, off)) s w =
    keeps_then IsUnique (iput j) _ s w (iput-IsUnique j) (λ _ s1 w1. w1)
link_new-IsUnique devices i name inum none s w =
    keeps_then IsUnique (empty_from ((inode_at s i).size / dirent_size + 1) devices i 0) _ s w
      (empty_from-IsUnique _ devices i 0)
      (λ off s1 w1.
        keeps_then IsUnique (writei devices i (dirent_bytes name inum) off) _ s1 w1
          (writei-IsUnique devices i (dirent_bytes name inum) off) whole_write-IsUnique)

pub dirlink-IsUnique :
    (devices : ℕ → Option ℕ) (i : ℕ) (name : List ℕ) (inum : ℕ)
    → Keeps IsUnique (dirlink devices i name inum)
unfolding dirlink
dirlink-IsUnique devices i name inum s w =
    keeps_then IsUnique (dirlookup devices i name) _ s w (dirlookup-IsUnique devices i name)
      (link_new-IsUnique devices i name inum)
