-- ===== src/Kernel/Fs/Dirs/Lookup.antt =====
-- `dirlookup` of kernel/fs.c against the entries in the contents of the directory.
use native.Mathlib.Decide.{ℕ_discrete}
use base_system.Base.{
  ℕ, zero, suc, ◌+◌, ◌-◌, ◌*◌, ◌/◌, ◌%◌, ◌^◌, ◌≤◌, ◌<◌, ◌≡◌, ◌≢◌, refl, ap, ◌∙◌, true, false,
  Option, none, some, List, arith, ◌==◌, ltb, length, min, pos, Bool-cases, inl, inr, ◌↔◌, ℤ,
}
use base_system.Kernel.Action.{Action, ok, ◌>>=◌, pure}
use base_system.Kernel.Fs.{Fs}
use base_system.Kernel.Fs.Inodes.{inode_at, iget}
use base_system.Kernel.Fs.Content.{t_dir, t_dev, moved}
use base_system.Kernel.Fs.Content.Reading.{AreMapped, file_bytes, readi_lem, length-file_bytes}
use base_system.Kernel.Fs.Dirs.{
  dirent_size, inum_of, name_of, namecmp, is_zero, read_dirent, lookup_from, dirlookup,
}
use base_system.Kernel.Fs.Dirs.Entries.{entry_name, namecmp_iff}

-- A directory of whole entries with all its blocks there.
pub record IsDirectory (s : Fs) (i : ℕ) : Type 0 where
  pub typed : ((inode_at s i).type == t_dir) ≡ true
  pub whole : (inode_at s i).size % dirent_size ≡ 0
  pub small : (inode_at s i).size < 2 ^ 32
  pub there : AreMapped s i 0 (inode_at s i).size

-- The bytes of the entry at an offset.
abbrev pub dirent_at : Fs → ℕ → ℕ → List ℕ
dirent_at s i off = file_bytes dirent_size s i off

-- The entry at an offset is in use and has the name.
abbrev pub Matches : Fs → ℕ → List ℕ → ℕ → Type 0
Matches s i name off =
    (inum_of (dirent_at s i off) ≢ 0) × (entry_name name ≡ entry_name (name_of (dirent_at s i off)))

-- What is done with the entry.
abbrev pub found : Fs → ℕ → ℕ → Action Fs (Option (ℕ × ℕ))
found s i off = iget (inode_at s i).dev (inum_of (dirent_at s i off)) >>= λ p. pure (some (p, off))

pub read_dirent_lem :
    (devices : ℕ → Option ℕ) (i off : ℕ) (s : Fs)
    → IsDirectory s i
    → off % dirent_size ≡ 0
    → off < (inode_at s i).size
    → read_dirent devices i off s ≡ (ok (dirent_at s i off), s)
unfolding read_dirent
read_dirent_lem devices i off s w a l =
    let t : ((inode_at s i).type == t_dev) ≡ false = ground (arith, w.typed) in
    let r =
      readi_lem devices i off dirent_size s t (omega arith) (omega (arith, w.small, w.whole))
        (λ bn h k. w.there bn (omega arith) (omega arith)) in
    let n : min dirent_size ((inode_at s i).size - off) ≡ dirent_size = omega (arith, w.whole) in
    let e = r ∙ ap (λ x. (ok (moved (file_bytes x s i off)), s)) n in
    let len : (length (dirent_at s i off) == dirent_size) ≡ true =
      ground (arith, length-file_bytes dirent_size s i off) in
    rw e (rw len refl)

is_zero_iff : (z : ℤ) → (is_zero z ≡ true) ↔ (z ≡ pos 0)
is_zero_iff z = (λ h. ground arith, λ h. ground arith)

matched :
    (s : Fs) (i : ℕ) (name : List ℕ) (off : ℕ)
    → Matches s i name off
    → ((inum_of (dirent_at s i off) == 0) ≡ false)
      × (is_zero (namecmp name (name_of (dirent_at s i off))) ≡ true)
matched s i name off (used, same) =
    let (_, back) = namecmp_iff name (name_of (dirent_at s i off)) in
    let (_, yes_zero) = is_zero_iff (namecmp name (name_of (dirent_at s i off))) in
    (ground (arith, used), yes_zero (back same))

unmatched :
    (s : Fs) (i : ℕ) (name : List ℕ) (off : ℕ)
    → ¬ Matches s i name off
    → (inum_of (dirent_at s i off) == 0) ≡ false
    → is_zero (namecmp name (name_of (dirent_at s i off))) ≡ false
unmatched s i name off other used =
    let (forth, _) = namecmp_iff name (name_of (dirent_at s i off)) in
    let (is_pos, _) = is_zero_iff (namecmp name (name_of (dirent_at s i off))) in
    elim (Bool-cases (is_zero (namecmp name (name_of (dirent_at s i off))))) [
      | inl z ↦ absurd (other (λ e. absurd (ground (arith, used, e)), forth (is_pos z)))
      | inr z ↦ z
    ]

-- One round of the loop.
found_now :
    (k : ℕ) (devices : ℕ → Option ℕ) (i off : ℕ) (name : List ℕ) (s : Fs)
    → IsDirectory s i
    → off % dirent_size ≡ 0
    → off < (inode_at s i).size
    → Matches s i name off
    → lookup_from (suc k) devices i name off s ≡ found s i off s
unfolding lookup_from
found_now k devices i off name s w a l m =
    let b : ltb off (inode_at s i).size ≡ true = ground arith in
    let (used, same) = matched s i name off m in
    rw b (rw (read_dirent_lem devices i off s w a l) (rw used (rw same refl)))

found_later :
    (k : ℕ) (devices : ℕ → Option ℕ) (i off : ℕ) (name : List ℕ) (s : Fs)
    → IsDirectory s i
    → off % dirent_size ≡ 0
    → off < (inode_at s i).size
    → ¬ Matches s i name off
    → lookup_from (suc k) devices i name off s ≡ lookup_from k devices i name (off + dirent_size) s
unfolding lookup_from
found_later k devices i off name s w a l m =
    let b : ltb off (inode_at s i).size ≡ true = ground arith in
    let r = read_dirent_lem devices i off s w a l in
    elim (Bool-cases (inum_of (dirent_at s i off) == 0)) [
      | inl free ↦ rw b (rw r (rw free refl))
      | inr used ↦ rw b (rw r (rw used (rw (unmatched s i name off m used) refl)))
    ]

lookup_none :
    (k : ℕ) (devices : ℕ → Option ℕ) (i off : ℕ) (name : List ℕ) (s : Fs)
    → IsDirectory s i
    → off % dirent_size ≡ 0
    → (inode_at s i).size ≤ off + k * dirent_size
    → ((o : ℕ) → off ≤ o → o < (inode_at s i).size → o % dirent_size ≡ 0 → ¬ Matches s i name o)
    → lookup_from k devices i name off s ≡ (ok none, s)
lookup_none zero devices i off name s w a l none_there = unfold lookup_from in refl
lookup_none (suc k) devices i off name s w a l none_there =
    elim (Bool-cases (ltb off (inode_at s i).size)) [
      | inl b ↦
          found_later k devices i off name s w a (ground arith)
            (none_there off (omega arith) (ground arith) a)
          ∙ lookup_none k devices i (off + dirent_size) name s w (omega arith) (omega arith)
              (λ o h. none_there o (omega arith))
      | inr b ↦ unfold lookup_from in (rw b refl)
    ]

lookup_some :
    (k : ℕ) (devices : ℕ → Option ℕ) (i off target : ℕ) (name : List ℕ) (s : Fs)
    → IsDirectory s i
    → off % dirent_size ≡ 0
    → (inode_at s i).size ≤ off + k * dirent_size
    → off ≤ target
    → target < (inode_at s i).size
    → target % dirent_size ≡ 0
    → Matches s i name target
    → ((o : ℕ) → off ≤ o → o < target → o % dirent_size ≡ 0 → ¬ Matches s i name o)
    → lookup_from k devices i name off s ≡ found s i target s
lookup_some zero devices i off target name s w a l above below aligned m first =
    absurd (omega arith)
lookup_some (suc k) devices i off target name s w a l above below aligned m first =
    elim (ℕ_discrete off target) [
      | yes e ↦
          found_now k devices i off name s w a (omega arith) (rw e m) ∙ ap (λ x. found s i x s) e
      | no ne ↦
          found_later k devices i off name s w a (omega arith)
            (first off (omega arith) (omega arith) a)
          ∙ lookup_some k devices i (off + dirent_size) target name s w (omega arith) (omega arith)
              (omega arith) below aligned m (λ o h. first o (omega arith))
    ]

-- In a directory of whole entries with all its blocks there, where no entry in use has the name,
-- `dirlookup` finds nothing and changes nothing.
pub dirlookup_absent :
    (devices : ℕ → Option ℕ) (i : ℕ) (name : List ℕ) (s : Fs)
    → IsDirectory s i
    → ((o : ℕ) → o < (inode_at s i).size → o % dirent_size ≡ 0 → ¬ Matches s i name o)
    → dirlookup devices i name s ≡ (ok none, s)
unfolding dirlookup
dirlookup_absent devices i name s w absent = rw w.typed (
    lookup_none ((inode_at s i).size / dirent_size + 1) devices i 0 name s w (omega arith)
      (omega arith) (λ o h. absent o))

-- In a directory of whole entries with all its blocks there, `dirlookup` is `iget` of the inode of the
-- first entry in use that has the name, and gives the offset of that entry.
pub dirlookup_lem :
    (devices : ℕ → Option ℕ) (i off : ℕ) (name : List ℕ) (s : Fs)
    → IsDirectory s i
    → off < (inode_at s i).size
    → off % dirent_size ≡ 0
    → Matches s i name off
    → ((o : ℕ) → o < off → o % dirent_size ≡ 0 → ¬ Matches s i name o)
    → dirlookup devices i name s ≡ found s i off s
unfolding dirlookup
dirlookup_lem devices i off name s w below aligned m first = rw w.typed (
    lookup_some ((inode_at s i).size / dirent_size + 1) devices i 0 off name s w (omega arith)
      (omega arith) (omega arith) below aligned m (λ o h. first o))
