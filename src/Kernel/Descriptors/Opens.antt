-- ===== src/Kernel/Descriptors/Opens.antt =====
-- `sys_open` and `sys_pipe` of kernel/sysfile.c, and the loops of `fork` and `exit`, against the
-- reference counts.
use base_system.Base.{
  ℕ, ◌≤◌, ◌≡◌, refl, inl, inr, Bool, ◌||◌, Option, none, some, List, [], ◌∷◌, ◌++◌, length, arith,
  ◌==◌, Option-cases, minus_one,
}
use base_system.Kernel.Action.{
  Action, Result, continue, ok, panic, sleeps, pure, Keeps, keeps_then, keeps_continue,
}
use base_system.Kernel.Pages.Ownership.{count}
use base_system.Kernel.Syscall.{argint, argstr}
use base_system.Kernel.Fs.Inodes.{inode_at, iunlock}
use base_system.Kernel.Fs.Content.{iunlockput}
use base_system.Kernel.File.{Files, on_fs, filedup, fileclose}
use base_system.Kernel.Descriptors.{
  Task, on_files, open_file, descriptor_of, open_end, open_inode, open_path, open_found, sys_open,
  bytes_at, opened, inode_to_open, sys_dup, sys_read, sys_write, sys_lseek, sys_close, sys_fstat,
}
use base_system.Kernel.Descriptors.Sharing.{dup_all, close_all}
use base_system.Kernel.Descriptors.References.{
  held_of, AreHeld, AreHeld-total, count-append, on_file-AreHeld, Keeps-on_fs, filealloc-AreHeld,
  filedup-AreHeld, fileclose-AreHeld,
}
use base_system.Kernel.Descriptors.Calls.{
  AllHeld, fdalloc_lem, Keeps-on_files, Keeps-sys_dup, Keeps-sys_read, Keeps-sys_write,
  Keeps-sys_lseek, Keeps-sys_close, Keeps-sys_fstat,
}

module _ (others : List ℕ) where
  descriptor_of-AllHeld :
      (f : ℕ) (t : Task)
      → AreHeld (f ∷ held_of t.ofile ++ others) t.files
      → AllHeld others (descriptor_of (some f) t).1
  descriptor_of-AllHeld f t w = elim (fdalloc_lem others f t w) [
    | inl e ↦ rw e (
        keeps_continue (AllHeld others) (fileclose f t.files).0 (λ _. pure none)
          (record t { files = (fileclose f t.files).1 })
          (fileclose-AreHeld (held_of t.ofile ++ others) f t.files w) (λ _ t1 w1. w1))
    | inr (fd, e, v) ↦ rw e v
  ]

  Keeps-open_file : Keeps (AllHeld others) open_file
  unfolding open_file
  Keeps-open_file t w = elim (filealloc-AreHeld (held_of t.ofile ++ others) t.files w) [
    | inl e ↦ rw e w
    | inr (f, t1, e, w1) ↦ rw e (descriptor_of-AllHeld f (record t { files = t1 }) w1)
  ]

  Keeps-open_end : (i omode : ℕ) (o : Option (ℕ × ℕ)) → Keeps (AllHeld others) (open_end i omode o)
  Keeps-open_end i omode none t w =
      keeps_then (AllHeld others) (on_files (on_fs (iunlockput i))) (λ _. pure minus_one) t w
        (Keeps-on_files others (on_fs (iunlockput i)) (λ held. Keeps-on_fs held (iunlockput i)))
        (λ _ t1 w1. w1)
  Keeps-open_end i omode (some (fd, f)) t w =
      keeps_then (AllHeld others) (on_files (on_fs (iunlock i))) _ t w
        (Keeps-on_files others (on_fs (iunlock i)) (λ held. Keeps-on_fs held (iunlock i)))
        (λ _ t1 w1.
          on_file-AreHeld (held_of t1.ofile ++ others)
            (opened i omode (t1.caller.uid == 0 || (inode_at t1.files.fs i).uid == t1.caller.uid)) f
            t1.files (λ x. refl) w1)

  Keeps-open_found : (o : Option ℕ × ℕ) → Keeps (AllHeld others) (open_found o)
  unfolding open_inode
  Keeps-open_found (none, omode) t w = w
  Keeps-open_found (some i, omode) t w =
      keeps_then (AllHeld others) open_file (open_end i omode) t w Keeps-open_file
        (Keeps-open_end i omode)

  Keeps-sys_open :
      (devices : ℕ → Option ℕ) (stack : List ℕ) → Keeps (AllHeld others) (sys_open devices stack)
  unfolding sys_open open_path
  Keeps-sys_open devices stack t w = elim (Option-cases (argstr t.user 0)) [
    | inl e ↦ rw (e, sys_open) w
    | inr ((p, len), e) ↦ elim (Option-cases (argint t.user 1)) [
      | inl g ↦ rw (e, sys_open, g) w
      | inr (omode, g) ↦
          rw (e, sys_open, g)
            (let m = inode_to_open devices t.caller (bytes_at t.user.memory p len) omode stack in
              keeps_then (AllHeld others) (on_files (on_fs m)) open_found t w
                (Keeps-on_files others (on_fs m) (λ held. Keeps-on_fs held m)) Keeps-open_found)
    ]
  ]

-- Each of the system calls `dup`, `read`, `write`, `lseek`, `close`, `fstat` and `open` of a process,
-- whatever its arguments and however it ends, keeps the count of every open file equal to the number
-- of the process's descriptors and the other references to it, with each of them to a file of the
-- table.
pub descriptors_lem :
    (others : List ℕ) (devices : ℕ → Option ℕ) (killed : Bool) (stack : List ℕ) (t : Task)
    → AllHeld others t
    → AllHeld others (sys_dup t).1
      × AllHeld others (sys_read devices killed t).1
      × AllHeld others (sys_write devices killed t).1
      × AllHeld others (sys_lseek t).1
      × AllHeld others (sys_close t).1
      × AllHeld others (sys_fstat t).1
      × AllHeld others (sys_open devices stack t).1
descriptors_lem others devices killed stack t w = (
  Keeps-sys_dup others t w,
  Keeps-sys_read others devices killed t w,
  Keeps-sys_write others devices killed t w,
  Keeps-sys_lseek others t w,
  Keeps-sys_close others t w,
  Keeps-sys_fstat others t w,
  Keeps-sys_open others devices stack t w,
)

-- The loop of `fork`, into slots that are all empty.
dup_all-AreHeld :
    (ofile child : List (Option ℕ)) (done : List ℕ) (t : Files)
    → length ofile ≡ length child
    → held_of child ≡ []
    → ((k : ℕ) → count k (held_of ofile) ≤ count k done)
    → AreHeld done t
    → ((dup_all ofile child t).0 ≡ ok ofile)
      × AreHeld (held_of ofile ++ done) (dup_all ofile child t).1
unfolding dup_all count
dup_all-AreHeld [] [] done t l z h w = (refl, w)
dup_all-AreHeld [] (g ∷ child) done t l z h w = absurd (omega (arith, l))
dup_all-AreHeld (x ∷ ofile) [] done t l z h w = absurd (omega (arith, l))
dup_all-AreHeld (x ∷ ofile) (some g ∷ child) done t l z h w = absurd (cc)
dup_all-AreHeld (none ∷ ofile) (none ∷ child) done t l z h w =
    let (e, u) = dup_all-AreHeld ofile child done t (omega (arith, l)) z h w in rw e (refl, u)
dup_all-AreHeld (some f ∷ ofile) (none ∷ child) done t l z h w =
    let one : 1 ≤ count f done = let a = h f in ground (arith, a) in
    let (fine, v) = filedup-AreHeld done f t w one in
    let (e, u) =
      dup_all-AreHeld ofile child (f ∷ done) (filedup f t).1 (omega (arith, l)) z
        (λ k. let a = h k in ground (arith, a)) v in
    rw (fine, e)
      (
        refl,
        AreHeld-total (held_of ofile ++ f ∷ done) (f ∷ (held_of ofile ++ done))
            (dup_all ofile child (filedup f t).1).1
            (λ k.
              let a = count-append k (held_of ofile) (f ∷ done) in
              let b = count-append k (held_of ofile) done in ground (arith, a, b))
            u,
      )

-- Where the counts are right and the child's slots, as many as the parent's, are all empty, the loop of
-- `fork` over the descriptors does not panic, leaves the parent's descriptors in the child's slots, and
-- the counts are right for both processes' descriptors and the other references.
pub fork_lem :
    (others : List ℕ) (t : Task) (child : List (Option ℕ))
    → AllHeld others t
    → length t.ofile ≡ length child
    → held_of child ≡ []
    → (new : List (Option ℕ)) × ((dup_all t.ofile child t.files).0 ≡ ok new)
      × (new ≡ t.ofile)
      × AreHeld (held_of new ++ (held_of t.ofile ++ others)) (dup_all t.ofile child t.files).1
fork_lem others t child w l z =
    let (e, u) =
      dup_all-AreHeld t.ofile child (held_of t.ofile ++ others) t.files l z
        (λ k. let a = count-append k (held_of t.ofile) others in omega (arith, a)) w in
    (t.ofile, e, refl, u)

then_held :
    (r : Result (Unit {0})) (m : Action Files (Unit {0})) (t : Files) (others : List ℕ)
    → (continue r (λ _. m) t).0 ≡ ok tt
    → ((m t).0 ≡ ok tt → AreHeld others (m t).1)
    → AreHeld others (continue r (λ _. m) t).1
then_held (ok a) m t others h k = k h
then_held panic m t others h k = absurd (cc)
then_held sleeps m t others h k = absurd (cc)

-- The loop of `exit` over the descriptors, if no closing panics, leaves right counts for the
-- references of all others.
pub exit_lem :
    (others : List ℕ) (ofile : List (Option ℕ)) (t : Files)
    → AreHeld (held_of ofile ++ others) t
    → (close_all ofile t).0 ≡ ok tt
    → AreHeld others (close_all ofile t).1
unfolding close_all
exit_lem others [] t w h = w
exit_lem others (none ∷ ofile) t w h = exit_lem others ofile t w h
exit_lem others (some f ∷ ofile) t w h =
    let v = fileclose-AreHeld (held_of ofile ++ others) f t w in
    then_held (fileclose f t).0 (close_all ofile) (fileclose f t).1 others h
      (exit_lem others ofile (fileclose f t).1 v)
