-- ===== src/Kernel/Fs/Content/Keeping.antt =====
-- The cache of inodes under the code of kernel/fs.c on blocks and contents.
use base_system.Base.{
  ℕ, zero, suc, ◌+◌, ◌-◌, ◌*◌, ◌/◌, ◌%◌, refl, ◌&&◌, ◌||◌, List, arith, ◌==◌, ltb, if◌then◌else◌,
  length, get_or, inl, inr, Bool-cases, Option-cases, Option,
}
use base_system.Kernel.Action.{◌>>◌, modify, panic_if, Keeps, keeps_then, Keeps-panic_if}
use base_system.Kernel.Fs.{bblock, bpb, SuperBlock, superblock_of, uint_at, bsize}
use base_system.Kernel.Fs.Blocks.{is_clear, scan, take_block, bzero, balloc_from, balloc, bfree}
use base_system.Kernel.Fs.Inodes.{ndirect, nindirect, inode_at, on_inode, iunlock, iupdate}
use base_system.Kernel.Fs.Inodes.Cache.{
  IsUnique, set-IsUnique, disk-IsUnique, iunlock-IsUnique, iupdate-IsUnique,
}
use base_system.Kernel.Fs.Content.{
  set_addr, addr_of, indirect_addr, bmap, free_direct, free_indirect, itrunc, free_inode, iput,
  iunlockput, read_from, readi, write_from, writei, piece, t_dev, uint_sum, max_size,
}

take_block-IsUnique : (dev bno bi b : ℕ) → Keeps IsUnique (take_block dev bno bi b)
unfolding take_block bzero
take_block-IsUnique dev bno bi b s w = disk-IsUnique s _ refl w

balloc_from-IsUnique :
    (k dev : ℕ) (sb : SuperBlock) (b : ℕ) → Keeps IsUnique (balloc_from k dev sb b)
unfolding balloc_from
balloc_from-IsUnique zero dev sb b s w = w
balloc_from-IsUnique (suc k) dev sb b s w = elim (Bool-cases (ltb b sb.size)) [
  | inl e ↦ elim (Option-cases (scan bpb (s.disks dev (bblock b sb.ninodes)) b sb.size 0)) [
    | inl n ↦ rw (e, n, balloc_from) (balloc_from-IsUnique k dev sb (b + bpb) s w)
    | inr (bi, n) ↦
        rw (e, n, balloc_from) (take_block-IsUnique dev (bblock b sb.ninodes) bi (b + bi) s w)
  ]
  | inr e ↦ rw e w
]

balloc-IsUnique : (dev : ℕ) → Keeps IsUnique (balloc dev)
unfolding balloc
balloc-IsUnique dev s w = balloc_from-IsUnique _ dev _ 0 s w

bfree-IsUnique : (dev b : ℕ) → Keeps IsUnique (bfree dev b)
unfolding bfree
bfree-IsUnique dev b s w =
    keeps_then IsUnique
      (panic_if
        (is_clear (s.disks dev (bblock b (superblock_of (s.disks dev 1)).ninodes)) (b % bpb)))
      _ s w (Keeps-panic_if IsUnique _) (λ _ s1 w1. disk-IsUnique s1 _ refl w1)

addr_of-IsUnique : (i bn : ℕ) → Keeps IsUnique (addr_of i bn)
unfolding addr_of
addr_of-IsUnique i bn s w =
    let ip = inode_at s i in
    elim (Bool-cases (get_or ip.addrs bn 0 == 0)) [
      | inl e ↦ rw e (
          keeps_then IsUnique (balloc ip.dev) _ s w (balloc-IsUnique ip.dev)
            (λ a s1 w1. set-IsUnique i _ s1 w1 refl refl (λ h. h)))
      | inr e ↦ rw e w
    ]

indirect_addr-IsUnique : (dev ind bn : ℕ) → Keeps IsUnique (indirect_addr dev ind bn)
unfolding indirect_addr
indirect_addr-IsUnique dev ind bn s w =
    elim (Bool-cases (uint_at (s.disks dev ind) (bn * 4) == 0)) [
      | inl e ↦ rw e (
          keeps_then IsUnique (balloc dev) _ s w (balloc-IsUnique dev)
            (λ a s1 w1. disk-IsUnique s1 _ refl w1))
      | inr e ↦ rw e w
    ]

bmap-IsUnique : (i bn : ℕ) → Keeps IsUnique (bmap i bn)
unfolding bmap
bmap-IsUnique i bn s w = elim (Bool-cases (ltb bn ndirect)) [
  | inl e ↦ rw e (addr_of-IsUnique i bn s w)
  | inr e ↦ elim (Bool-cases (ltb (bn - ndirect) nindirect)) [
    | inl d ↦ rw e (
        rw d (
          keeps_then IsUnique (addr_of i ndirect) _ s w (addr_of-IsUnique i ndirect)
            (λ ind. indirect_addr-IsUnique (inode_at s i).dev ind (bn - ndirect))))
    | inr d ↦ rw e (rw d w)
  ]
]

free_direct-IsUnique : (k i bn : ℕ) → Keeps IsUnique (free_direct k i bn)
unfolding free_direct
free_direct-IsUnique zero i bn s w = w
free_direct-IsUnique (suc k) i bn s w =
    let ip = inode_at s i in
    let rest = free_direct-IsUnique k i (bn + 1) in
    elim (Bool-cases (get_or ip.addrs bn 0 == 0)) [
      | inl e ↦ rw e (rest s w)
      | inr e ↦ rw e (
          keeps_then IsUnique (bfree ip.dev (get_or ip.addrs bn 0) >> modify (set_addr i bn 0)) _ s
            w
            (λ s1 w1.
              keeps_then IsUnique (bfree ip.dev (get_or ip.addrs bn 0)) _ s1 w1 (bfree-IsUnique _ _)
                (λ _ s2 w2. set-IsUnique i _ s2 w2 refl refl (λ h. h)))
            (λ _. rest))
    ]

free_indirect-IsUnique : (k dev ind j : ℕ) → Keeps IsUnique (free_indirect k dev ind j)
unfolding free_indirect
free_indirect-IsUnique zero dev ind j s w = w
free_indirect-IsUnique (suc k) dev ind j s w =
    let rest = free_indirect-IsUnique k dev ind (j + 1) in
    let a = uint_at (s.disks dev ind) (j * 4) in
    elim (Bool-cases (a == 0)) [
      | inl e ↦ rw e (rest s w)
      | inr e ↦ rw e (keeps_then IsUnique (bfree dev a) _ s w (bfree-IsUnique dev a) (λ _. rest))
    ]

-- What `itrunc` does at its end.
emptied : (i : ℕ) → Keeps IsUnique (modify (on_inode (λ p. record p { size = 0 }) i) >> iupdate i)
emptied i s w = iupdate-IsUnique i _ (set-IsUnique i _ s w refl refl (λ h. h))

pub itrunc-IsUnique : (i : ℕ) → Keeps IsUnique (itrunc i)
unfolding itrunc
itrunc-IsUnique i s w =
    keeps_then IsUnique (free_direct ndirect i 0) _ s w (free_direct-IsUnique ndirect i 0)
      (λ _ s1 w1.
        let dev = (inode_at s1 i).dev in
        let ind = get_or (inode_at s1 i).addrs ndirect 0 in
        elim (Bool-cases (ind == 0)) [
          | inl e ↦ rw e (emptied i s1 w1)
          | inr e ↦ rw e (
              keeps_then IsUnique
                (free_indirect nindirect dev ind 0
                  >> (bfree dev ind >> modify (set_addr i ndirect 0)))
                _ s1 w1
                (λ s2 w2.
                  keeps_then IsUnique (free_indirect nindirect dev ind 0) _ s2 w2
                    (free_indirect-IsUnique nindirect dev ind 0)
                    (λ _ s3 w3.
                      keeps_then IsUnique (bfree dev ind) _ s3 w3 (bfree-IsUnique dev ind)
                        (λ _ s4 w4. set-IsUnique i _ s4 w4 refl refl (λ h. h))))
                (λ _. emptied i))
        ])

free_inode-IsUnique : (i : ℕ) → Keeps IsUnique (free_inode i)
unfolding free_inode
free_inode-IsUnique i s w =
    keeps_then IsUnique (panic_if (inode_at s i).busy) _ s w (Keeps-panic_if IsUnique _) (λ _ s1 w1.
      keeps_then IsUnique (itrunc i) _ _ (set-IsUnique i _ s1 w1 refl refl (λ h. h))
        (itrunc-IsUnique i)
        (λ _ s2 w2.
          keeps_then IsUnique (iupdate i) _ _ (set-IsUnique i _ s2 w2 refl refl (λ h. h))
            (iupdate-IsUnique i) (λ _ s3 w3. set-IsUnique i _ s3 w3 refl refl (λ h. h))))

-- The last line of `iput`.
dropped : (i : ℕ) → Keeps IsUnique (modify (on_inode (λ p. record p { ref = p.ref - 1 }) i))
dropped i s w = set-IsUnique i _ s w refl refl (λ h. omega (arith, h))

pub iput-IsUnique : (i : ℕ) → Keeps IsUnique (iput i)
unfolding iput
iput-IsUnique i s w =
    let ip = inode_at s i in
    elim (Bool-cases (ip.ref == 1 && ip.valid && ip.nlink == 0)) [
      | inl e ↦
          rw e (keeps_then IsUnique (free_inode i) _ s w (free_inode-IsUnique i) (λ _. dropped i))
      | inr e ↦ rw e (dropped i s w)
    ]

pub iunlockput-IsUnique : (i : ℕ) → Keeps IsUnique (iunlockput i)
unfolding iunlockput
iunlockput-IsUnique i s w =
    keeps_then IsUnique (iunlock i) _ s w (iunlock-IsUnique i) (λ _. iput-IsUnique i)

read_from-IsUnique : (fuel i off n : ℕ) → Keeps IsUnique (read_from fuel i off n)
unfolding read_from
read_from-IsUnique zero i off n s w = w
read_from-IsUnique (suc fuel) i off n s w = elim (Bool-cases (n == 0)) [
  | inl e ↦ rw e w
  | inr e ↦ rw e (
      keeps_then IsUnique (bmap i (off / bsize)) _ s w (bmap-IsUnique i (off / bsize)) (λ b s1 w1.
        keeps_then IsUnique (read_from fuel i (off + piece n off) (n - piece n off)) _ s1 w1
          (read_from-IsUnique fuel i (off + piece n off) (n - piece n off)) (λ _ s2 w2. w2)))
]

write_from-IsUnique : (fuel i off : ℕ) (src : List ℕ) → Keeps IsUnique (write_from fuel i off src)
unfolding write_from
write_from-IsUnique zero i off src s w = w
write_from-IsUnique (suc fuel) i off src s w = elim (Bool-cases (length src == 0)) [
  | inl e ↦ rw e w
  | inr e ↦ rw e (
      keeps_then IsUnique (bmap i (off / bsize)) _ s w (bmap-IsUnique i (off / bsize))
        (λ b s1 w1. write_from-IsUnique fuel i _ _ _ (disk-IsUnique s1 _ refl w1)))
]

pub readi-IsUnique : (devices : ℕ → Option ℕ) (i off n : ℕ) → Keeps IsUnique (readi devices i off n)
unfolding readi
readi-IsUnique devices i off n s w =
    let ip = inode_at s i in
    elim (Bool-cases (ip.type == t_dev)) [
      | inl e ↦ rw e w
      | inr e ↦ elim (Bool-cases (ltb ip.size off || ltb (uint_sum off n) off)) [
        | inl d ↦ rw e (rw d w)
        | inr d ↦
            let now = if ltb ip.size (uint_sum off n) then ip.size - off else n in
            rw e (
              rw d (
                keeps_then IsUnique (read_from now i off now) _ s w
                  (read_from-IsUnique now i off now) (λ _ s1 w1. w1)))
      ]
    ]

pub writei-IsUnique :
    (devices : ℕ → Option ℕ) (i : ℕ) (src : List ℕ) (off : ℕ)
    → Keeps IsUnique (writei devices i src off)
unfolding writei iupdate
writei-IsUnique devices i src off s w =
    let ip = inode_at s i in
    let n = length src in
    elim (Bool-cases (ip.type == t_dev)) [
      | inl e ↦ rw e w
      | inr e ↦ elim (Bool-cases (ltb ip.size off || ltb (uint_sum off n) off)) [
        | inl d ↦ rw e (rw d w)
        | inr d ↦ elim (Bool-cases (ltb max_size (uint_sum off n))) [
          | inl c ↦ rw e (rw d (rw c w))
          | inr c ↦ rw e (
              rw d (
                rw c (
                  keeps_then IsUnique (write_from n i off src) _ s w
                    (write_from-IsUnique n i off src)
                    (λ _ s1 w1. elim (Bool-cases (ltb 0 n && ltb ip.size (off + n))) [
                      | inl b ↦
                          rw b (iupdate-IsUnique i _ (set-IsUnique i _ s1 w1 refl refl (λ h. h)))
                      | inr b ↦ rw b w1
                    ]))))
        ]
      ]
    ]
