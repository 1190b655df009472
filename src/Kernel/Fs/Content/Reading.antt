-- ===== src/Kernel/Fs/Content/Reading.antt =====
-- What `readi` of kernel/fs.c returns for a file whose blocks are all there.
use native.Mathlib.Decide.{ℕ_discrete}
use base_system.Base.{
  ℕ, zero, suc, ◌+◌, ◌-◌, ◌*◌, ◌/◌, ◌%◌, ◌^◌, ◌≤◌, ◌<◌, ◌≡◌, refl, sym, ap, ap₂, ◌∙◌, ◌≢◌, true,
  false, ◌||◌, List, [], ◌∷◌, ◌++◌, arith, ◌==◌, ltb, if◌then◌else◌, get_or, length, min,
  Bool-cases, inl, inr, ◌⊎◌, Option,
}
use base_system.Kernel.Action.{ok}
use base_system.Kernel.Fs.{Fs, uint_at, bsize}
use base_system.Kernel.Fs.Inodes.{ndirect, nindirect, inode_at}
use base_system.Kernel.Fs.Content.{
  addr_of, indirect_addr, bmap, refused, moved, bytes_at, piece, read_from, uint_sum, readi, t_dev,
}

-- The number of the block `bn` of an inode's contents, zero if it has none.
unfoldable pub block_of : Fs → ℕ → ℕ → ℕ
block_of s i bn =
    let ip = inode_at s i in
    if ltb bn ndirect
    then get_or ip.addrs bn 0
    else uint_at (s.disks ip.dev (get_or ip.addrs ndirect 0)) ((bn - ndirect) * 4)

-- The block `bn` is there, and so is the indirect block if its number stands there.
pub record IsMapped (s : Fs) (i bn : ℕ) : Type 0 where
  pub bounded : bn < ndirect + nindirect
  pub mapped : (block_of s i bn == 0) ≡ false
  pub indirect : ltb bn ndirect ≡ false → (get_or (inode_at s i).addrs ndirect 0 == 0) ≡ false

-- Every block with a byte from `off` on, `n` bytes long.
abbrev pub AreMapped : Fs → ℕ → ℕ → ℕ → Type 0
AreMapped s i off n = (bn : ℕ) → off / bsize ≤ bn → bn * bsize < off + n → IsMapped s i bn

-- The bytes of the contents from an offset on.
unfoldable pub file_bytes : ℕ → Fs → ℕ → ℕ → List ℕ
file_bytes zero s i off = []
file_bytes (suc n) s i off =
    s.disks (inode_at s i).dev (block_of s i (off / bsize)) (off % bsize)
    ∷ file_bytes n s i (off + 1)

direct_lem :
    (s : Fs) (i bn : ℕ)
    → ltb bn ndirect ≡ true
    → (get_or (inode_at s i).addrs bn 0 == 0) ≡ false
    → bmap i bn s ≡ (ok (get_or (inode_at s i).addrs bn 0), s)
unfolding bmap addr_of
direct_lem s i bn d h = rw d (rw h refl)

indirect_lem :
    (s : Fs) (i bn : ℕ)
    → ltb bn ndirect ≡ false
    → ltb (bn - ndirect) nindirect ≡ true
    → let ip = inode_at s i in
      (get_or ip.addrs ndirect 0 == 0) ≡ false
      → let addr = uint_at (s.disks ip.dev (get_or ip.addrs ndirect 0)) ((bn - ndirect) * 4) in
        (addr == 0) ≡ false → bmap i bn s ≡ (ok addr, s)
unfolding bmap addr_of indirect_addr
indirect_lem s i bn d b a h = rw d (rw b (rw a (rw h refl)))

block_of_direct :
    (s : Fs) (i bn : ℕ) → ltb bn ndirect ≡ true → block_of s i bn ≡ get_or (inode_at s i).addrs bn 0
unfolding block_of
block_of_direct s i bn d = rw d refl

block_of_indirect :
    (s : Fs) (i bn : ℕ)
    → ltb bn ndirect ≡ false
    → let ip = inode_at s i in
      block_of s i bn ≡ uint_at (s.disks ip.dev (get_or ip.addrs ndirect 0)) ((bn - ndirect) * 4)
unfolding block_of
block_of_indirect s i bn d = rw d refl

bmap_lem : (s : Fs) (i bn : ℕ) → IsMapped s i bn → bmap i bn s ≡ (ok (block_of s i bn), s)
bmap_lem s i bn w = elim (Bool-cases (ltb bn ndirect)) [
  | inl d ↦
      let e = block_of_direct s i bn d in
      rw e (direct_lem s i bn d (ap (λ a. a == 0) (sym e) ∙ w.mapped))
  | inr d ↦
      let e = block_of_indirect s i bn d in
      let b : ltb (bn - ndirect) nindirect ≡ true = ground (arith, w.bounded) in
      rw e (indirect_lem s i bn d b (w.indirect d) (ap (λ a. a == 0) (sym e) ∙ w.mapped))
]

file_bytes-append :
    (a b : ℕ) (s : Fs) (i off : ℕ)
    → file_bytes (a + b) s i off ≡ file_bytes a s i off ++ file_bytes b s i (off + a)
unfolding file_bytes
file_bytes-append zero b s i off = ap₂ (λ x y. file_bytes x s i y) (omega arith) (omega arith)
file_bytes-append (suc a) b s i off =
    let sum : suc a + b ≡ suc (a + b) = omega arith in
    let first = s.disks (inode_at s i).dev (block_of s i (off / bsize)) (off % bsize) in
    let ih = file_bytes-append a b s i (off + 1) in
    let at : off + 1 + a ≡ off + suc a = omega arith in
    ap (λ x. file_bytes x s i off) sum
    ∙ ap (λ bytes. first ∷ bytes) ih
    ∙ ap (λ x. first ∷ (file_bytes a s i (off + 1) ++ file_bytes b s i x)) at

pub length-file_bytes : (n : ℕ) (s : Fs) (i off : ℕ) → length (file_bytes n s i off) ≡ n
unfolding file_bytes
length-file_bytes zero s i off = refl
length-file_bytes (suc n) s i off = ap suc (length-file_bytes n s i (off + 1))

-- Bytes of one block.
bytes_at_lem :
    (n q p : ℕ) (s : Fs) (i : ℕ)
    → p + n ≤ bsize
    → bytes_at n (s.disks (inode_at s i).dev (block_of s i q)) p ≡ file_bytes n s i (q * bsize + p)
unfolding file_bytes bytes_at
bytes_at_lem zero q p s i h = refl
bytes_at_lem (suc n) q p s i h =
    let a : (q * bsize + p) / bsize ≡ q = omega arith in
    let b : (q * bsize + p) % bsize ≡ p = omega arith in
    ap₂ ◌∷◌ (ap₂ (λ x y. s.disks (inode_at s i).dev (block_of s i x) y) (sym a) (sym b))
      (bytes_at_lem n q (p + 1) s i (omega arith) ∙ ap (λ x. file_bytes n s i x) (omega arith))

piece_lem :
    (n off : ℕ)
    → n ≢ 0
    → (1 ≤ piece n off) × (piece n off ≤ n) × (off % bsize + piece n off ≤ bsize)
piece_lem n off h = (omega arith, omega arith, omega arith)

read_step :
    (fuel i off n : ℕ) (s : Fs) (rest : List ℕ)
    → (n == 0) ≡ false
    → bmap i (off / bsize) s ≡ (ok (block_of s i (off / bsize)), s)
    → read_from fuel i (off + piece n off) (n - piece n off) s ≡ (ok rest, s)
    → read_from (suc fuel) i off n s ≡ (
      ok (
          bytes_at
            (piece n off)
            (s.disks (inode_at s i).dev (block_of s i (off / bsize)))
            (off % bsize)
          ++ rest),
      s,
    )
unfolding read_from
read_step fuel i off n s rest z b r = rw z (rw b (rw r refl))

read_from_lem :
    (fuel i off n : ℕ) (s : Fs)
    → n ≤ fuel
    → AreMapped s i off n
    → read_from fuel i off n s ≡ (ok (file_bytes n s i off), s)
read_from_lem zero i off n s l w =
    let e : n ≡ 0 = omega arith in rw e (unfold read_from file_bytes in refl)
read_from_lem (suc fuel) i off n s l w = elim (ℕ_discrete n 0) [
  | yes e ↦ rw e (unfold read_from file_bytes in refl)
  | no ne ↦
      let now = piece n off in
      let (one, most, fits) = piece_lem n off ne in
      let b = bmap_lem s i (off / bsize) (w (off / bsize) (omega arith) (omega arith)) in
      let ih =
        read_from_lem fuel i (off + now) (n - now) s (omega (arith, one))
          (λ bn h k. w bn (omega arith) (omega (arith, most))) in
      let step =
        read_step fuel i off n s (file_bytes (n - now) s i (off + now)) (ground arith) b ih in
      let here = bytes_at_lem now (off / bsize) (off % bsize) s i fits in
      let at : off / bsize * bsize + off % bsize ≡ off = omega arith in
      let all : now + (n - now) ≡ n = omega (arith, most) in
      let rest = file_bytes (n - now) s i (off + now) in
      let bytes =
        ap (λ x. x ++ rest) (here ∙ ap (λ x. file_bytes now s i x) at)
        ∙ sym (file_bytes-append now (n - now) s i off)
        ∙ ap (λ x. file_bytes x s i off) all in
      step ∙ ap (λ x. (ok x, s)) bytes
]

no_device :
    (devices : ℕ → Option ℕ) (i off n now : ℕ) (s : Fs) (bytes : List ℕ)
    → ((inode_at s i).type == t_dev) ≡ false
    → (ltb (inode_at s i).size off || ltb (uint_sum off n) off) ≡ false
    → (if ltb (inode_at s i).size (uint_sum off n) then (inode_at s i).size - off else n) ≡ now
    → read_from now i off now s ≡ (ok bytes, s)
    → readi devices i off n s ≡ (ok (moved bytes), s)
unfolding readi
no_device devices i off n now s bytes d b e r = rw d (rw b (rw e (rw r refl)))

-- On a file that is no device: at an offset in the file or at its end, with a count whose sum with the
-- offset is a `uint`, and with all the blocks of what is left of the file there, `readi` returns the
-- bytes of the file from the offset on, the count of them or all that are left, and changes nothing.
pub readi_lem :
    (devices : ℕ → Option ℕ) (i off n : ℕ) (s : Fs)
    → ((inode_at s i).type == t_dev) ≡ false
    → off ≤ (inode_at s i).size
    → off + n < 2 ^ 32
    → AreMapped s i off ((inode_at s i).size - off)
    → readi devices i off n s
      ≡ (ok (moved (file_bytes (min n ((inode_at s i).size - off)) s i off)), s)
readi_lem devices i off n s d l b w =
    let now = min n ((inode_at s i).size - off) in
    let sum : uint_sum off n ≡ off + n = omega arith in
    no_device devices i off n now s (file_bytes now s i off) d (rw sum (ground arith))
      (rw sum (ground arith))
      (read_from_lem now i off now s (omega arith) (λ bn h k. w bn h (omega arith)))

-- `readi` refuses an offset behind the end of a file and a count that makes the sum with the offset
-- wrap around.
pub readi_refuses :
    (devices : ℕ → Option ℕ) (i off n : ℕ) (s : Fs)
    → ((inode_at s i).type == t_dev) ≡ false
    → ((inode_at s i).size < off) ⊎ ((off < 2 ^ 32) × (n < 2 ^ 32) × (2 ^ 32 ≤ off + n))
    → readi devices i off n s ≡ (ok refused, s)
unfolding readi
readi_refuses devices i off n s d h =
    let b : (ltb (inode_at s i).size off || ltb (uint_sum off n) off) ≡ true = ground arith in
    rw d (rw b refl)
