-- ===== src/Kernel/Sysfile/Empty.antt =====
-- `isdirempty` of kernel/sysfile.c against the entries in the contents of the directory.
use native.Mathlib.Decide.{ℕ_discrete}
use base_system.Base.{
  ℕ, zero, suc, ◌+◌, ◌*◌, ◌/◌, ◌%◌, ◌≤◌, ◌<◌, ◌≡◌, ◌≢◌, ◌⊎◌, refl, sym, ap, ◌∙◌, true, false, arith,
  ◌==◌, ltb, if◌then◌else◌, Bool-cases, inl, inr, Option,
}
use base_system.Kernel.Action.{ok}
use base_system.Kernel.Fs.{Fs}
use base_system.Kernel.Fs.Inodes.{inode_at}
use base_system.Kernel.Fs.Dirs.{dirent_size, inum_of}
use base_system.Kernel.Fs.Dirs.Lookup.{IsDirectory, dirent_at, read_dirent_lem}
use base_system.Kernel.Sysfile.{unused_from, isdirempty}

-- One round of the loop.
unused_now :
    (k : ℕ) (devices : ℕ → Option ℕ) (i off : ℕ) (s : Fs)
    → IsDirectory s i
    → off % dirent_size ≡ 0
    → off < (inode_at s i).size
    → unused_from (suc k) devices i off s ≡ (
        if inum_of (dirent_at s i off) == 0
        then unused_from k devices i (off + dirent_size) s
        else (ok false, s))
unfolding unused_from
unused_now k devices i off s w a l =
    let b : ltb off (inode_at s i).size ≡ true = ground arith in
    let r = read_dirent_lem devices i off s w a l in
    elim (Bool-cases (inum_of (dirent_at s i off) == 0)) [
      | inl e ↦ rw b (rw r (rw e refl))
      | inr e ↦ rw b (rw r (rw e refl))
    ]

-- No entry from an offset on is in use, or one is.
abbrev pub AreUnused : Fs → ℕ → ℕ → Type 0
AreUnused s i off =
    (o : ℕ)
    → off ≤ o
    → o < (inode_at s i).size
    → o % dirent_size ≡ 0
    → inum_of (dirent_at s i o) ≡ 0

abbrev pub SomeUsed : Fs → ℕ → ℕ → Type 0
SomeUsed s i off =
    (o : ℕ) × (off ≤ o)
    × (o < (inode_at s i).size)
    × (o % dirent_size ≡ 0)
    × (inum_of (dirent_at s i o) ≢ 0)

AreUnused-step :
    (s : Fs) (i off : ℕ)
    → off % dirent_size ≡ 0
    → inum_of (dirent_at s i off) ≡ 0
    → AreUnused s i (off + dirent_size)
    → AreUnused s i off
AreUnused-step s i off a z h o p q r = elim (ℕ_discrete off o) [
  | yes e ↦ ap (λ x. inum_of (dirent_at s i x)) (sym e) ∙ z
  | no ne ↦ h o (omega arith) q r
]

unused_cases :
    (k : ℕ) (devices : ℕ → Option ℕ) (i off : ℕ) (s : Fs)
    → IsDirectory s i
    → off % dirent_size ≡ 0
    → (inode_at s i).size ≤ off + k * dirent_size
    → ((unused_from k devices i off s ≡ (ok true, s)) × AreUnused s i off)
      ⊎ ((unused_from k devices i off s ≡ (ok false, s)) × SomeUsed s i off)
unused_cases zero devices i off s w a l =
    inl (unfold unused_from in refl, λ o p q r. absurd (omega arith))
unused_cases (suc k) devices i off s w a l = elim (Bool-cases (ltb off (inode_at s i).size)) [
  | inr b ↦ inl (unfold unused_from in (rw b refl), λ o p q r. absurd (ground (arith, b, p, q)))
  | inl b ↦
      let now = unused_now k devices i off s w a (ground arith) in
      elim (Bool-cases (inum_of (dirent_at s i off) == 0)) [
        | inr e ↦ inr (now ∙ rw e refl, (off, omega arith, ground arith, a, ground (arith, e)))
        | inl e ↦
            elim (unused_cases k devices i (off + dirent_size) s w (omega arith) (omega arith)) [
              | inl (r, h) ↦ inl (now ∙ rw e r, AreUnused-step s i off a (ground (arith, e)) h)
              | inr (r, (o, p, q, a1, h)) ↦ inr (now ∙ rw e r, (o, omega arith, q, a1, h))
            ]
      ]
]

-- In a directory of whole entries with all its blocks there, `isdirempty` changes nothing, and answers
-- 1 where no entry behind the first two is in use, and 0 where one is.
pub isdirempty_lem :
    (devices : ℕ → Option ℕ) (i : ℕ) (s : Fs)
    → IsDirectory s i
    → ((isdirempty devices i s ≡ (ok true, s)) × AreUnused s i 32)
      ⊎ ((isdirempty devices i s ≡ (ok false, s)) × SomeUsed s i 32)
unfolding isdirempty
isdirempty_lem devices i s w =
    unused_cases ((inode_at s i).size / dirent_size + 1) devices i 32 s w refl (omega arith)
