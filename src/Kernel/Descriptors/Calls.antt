-- ===== src/Kernel/Descriptors/Calls.antt =====
-- The system calls on descriptors keep the reference counts.
use base_system.Base.{
  ℕ, zero, suc, ◌+◌, ◌-◌, ◌^◌, ◌≤◌, ◌≡◌, refl, sym, ap, ◌∙◌, inl, inr, ◌⊎◌, Bool, ◌||◌, Option,
  none, some, List, [], ◌∷◌, ◌++◌, arith, ◌==◌, leb, get_or, set, Bool-cases, Option-cases, pos,
}
use base_system.Kernel.Action.{
  Action, ok, ◌>>◌, pure, modify, Keeps, keeps_then, keeps_continue, keeps_if,
}
use base_system.Kernel.Pages.Ownership.{count}
use base_system.Kernel.Syscall.{argint, argptr}
use base_system.Kernel.File.{
  File, Files, filedup, fileclose, filestat, fileread, filewrite, filewrite_negative,
}
use base_system.Kernel.Text.{Memory}
use base_system.Kernel.Descriptors.{
  Task, on_files, argfd, free_descriptor, put_descriptor, fdalloc, dup_file, sys_dup, argbuf,
  sys_read, sys_write, write_file, sys_lseek, seek, close_descriptor, sys_close, sys_fstat,
  bytes_at, read_file, received, store_bytes, nofile,
}
use base_system.Kernel.Descriptors.References.{
  held_of, AreHeld, AreHeld-total, count-append, on_file-AreHeld, Keeps-filestat, Keeps-fileread,
  Keeps-filewrite, filedup-AreHeld, fileclose-AreHeld,
}

-- The counts are the descriptors of the process and the other references.
abbrev pub AllHeld : List ℕ → Task → Type 0
AllHeld others t = AreHeld (held_of t.ofile ++ others) t.files

free_descriptor_lem :
    (i : ℕ) (ofile : List (Option ℕ)) (fd f : ℕ)
    → free_descriptor i ofile ≡ some fd
    → (i ≤ fd)
      × ((k : ℕ) → count k (held_of (set ofile (fd - i) (some f))) ≡ count k (f ∷ held_of ofile))
unfolding free_descriptor count
free_descriptor_lem i [] fd f h = absurd (cc)
free_descriptor_lem i (none ∷ ofile) fd f h =
    let e : i ≡ fd = cc in let z : fd - i ≡ 0 = omega arith in (omega arith, λ k. rw z refl)
free_descriptor_lem i (some g ∷ ofile) fd f h =
    let (l, c) = free_descriptor_lem (i + 1) ofile fd f h in
    let s : fd - i ≡ suc (fd - (i + 1)) = omega arith in
    (omega arith, λ k. rw s (let d = c k in ground (arith, d)))

clear_lem :
    (ofile : List (Option ℕ)) (fd f k : ℕ)
    → get_or ofile fd none ≡ some f
    → count k (f ∷ held_of (set ofile fd none)) ≡ count k (held_of ofile)
unfolding count
clear_lem [] fd f k h = absurd (cc)
clear_lem (none ∷ ofile) zero f k h = absurd (cc)
clear_lem (some g ∷ ofile) zero f k h = let e : g ≡ f = cc in rw e refl
clear_lem (none ∷ ofile) (suc fd) f k h = clear_lem ofile fd f k h
clear_lem (some g ∷ ofile) (suc fd) f k h = let d = clear_lem ofile fd f k h in ground (arith, d)

abbrev pair_of : Option (ℕ × ℕ) → ℕ × ℕ
pair_of none = (0, 0)
pair_of (some p) = p

-- `argfd` gives a file that the process holds.
argfd_lem :
    (n : ℕ) (t : Task) (fd f : ℕ) → argfd n t ≡ some (fd, f) → get_or t.ofile fd none ≡ some f
unfolding argfd
argfd_lem n t fd f h = elim (Option-cases (argint t.user n)) [
  | inl e ↦ absurd (let k = rw (e, argfd) at h in cc)
  | inr (w, e) ↦
      let h1 = rw (e, argfd) at h in
      elim (Bool-cases (leb (2 ^ 31) w || leb nofile w)) [
        | inl b ↦ absurd (let k = rw b at h1 in cc)
        | inr b ↦
            let h2 = rw b at h1 in
            elim (Option-cases (get_or t.ofile w none)) [
              | inl g ↦ absurd (let k = rw g at h2 in cc)
              | inr (f1, g) ↦
                  let k : some (w, f1) ≡ some (fd, f) = rw g at h2 in
                  let p : w ≡ fd = ap (λ o. (pair_of o).0) k in
                  let q : f1 ≡ f = ap (λ o. (pair_of o).1) k in
                  ap (λ x. get_or t.ofile x none) (sym p) ∙ g ∙ ap some q
            ]
      ]
]

pub fdalloc_lem :
    (others : List ℕ) (f : ℕ) (t : Task)
    → AreHeld (f ∷ held_of t.ofile ++ others) t.files
    → (fdalloc f t ≡ (ok none, t))
      ⊎ ((fd : ℕ) × (fdalloc f t ≡ (ok (some fd), put_descriptor fd (some f) t))
          × AllHeld others (put_descriptor fd (some f) t))
unfolding fdalloc
fdalloc_lem others f t w = elim (Option-cases (free_descriptor 0 t.ofile)) [
  | inl e ↦ inl (rw (e, fdalloc) refl)
  | inr (fd, e) ↦ inr (
    fd,
    rw (e, fdalloc) refl,
    AreHeld-total (f ∷ held_of t.ofile ++ others) (held_of (set t.ofile fd (some f)) ++ others)
        t.files
        (λ k.
          let a = count-append k (held_of (set t.ofile fd (some f))) others in
          let b = count-append k (f ∷ held_of t.ofile) others in
          let z : fd - 0 ≡ fd = omega arith in
          let c = rw z at ((free_descriptor_lem 0 t.ofile fd f e).1 k) in omega (arith, a, b, c))
        w,
  )
]

held_lem :
    (ofile : List (Option ℕ)) (fd f : ℕ)
    → get_or ofile fd none ≡ some f
    → 1 ≤ count f (held_of ofile)
unfolding count
held_lem ofile fd f h = let c = clear_lem ofile fd f f h in ground (arith, c)

module _ (others : List ℕ) where
  dup_file-AllHeld :
      (f : ℕ) (t : Task)
      → 1 ≤ count f (held_of t.ofile)
      → AllHeld others t
      → AllHeld others (dup_file f t).1
  unfolding dup_file fdalloc
  dup_file-AllHeld f t one w = elim (Option-cases (free_descriptor 0 t.ofile)) [
    | inl e ↦ rw (e, dup_file, fdalloc) w
    | inr (fd, e) ↦
        let here : 1 ≤ count f (held_of t.ofile ++ others) =
          omega (arith, count-append f (held_of t.ofile) others, one) in
        let (ok_dup, v) = filedup-AreHeld (held_of t.ofile ++ others) f t.files w here in
        let z : fd - 0 ≡ fd = omega arith in
        rw (e, dup_file, fdalloc, ok_dup)
          (AreHeld-total (f ∷ (held_of t.ofile ++ others))
            (held_of (set t.ofile fd (some f)) ++ others) (filedup f t.files).1
            (λ k.
              let a = count-append k (held_of (set t.ofile fd (some f))) others in
              let b = count-append k (f ∷ held_of t.ofile) others in
              let c = rw z at ((free_descriptor_lem 0 t.ofile fd f e).1 k) in
              omega (arith, a, b, c))
            v)
  ]

  pub Keeps-sys_dup : Keeps (AllHeld others) sys_dup
  unfolding sys_dup
  Keeps-sys_dup t w = elim (Option-cases (argfd 0 t)) [
    | inl e ↦ rw (e, sys_dup) w
    | inr ((fd, f), e) ↦
        rw (e, sys_dup) (dup_file-AllHeld f t (held_lem t.ofile fd f (argfd_lem 0 t fd f e)) w)
  ]

  close_descriptor-AllHeld :
      (fd f : ℕ) (t : Task)
      → get_or t.ofile fd none ≡ some f
      → AllHeld others t
      → AllHeld others (close_descriptor fd f t).1
  unfolding close_descriptor
  close_descriptor-AllHeld fd f t e w =
      let v =
        AreHeld-total (held_of t.ofile ++ others) (f ∷ (held_of (set t.ofile fd none) ++ others))
          t.files
          (λ k.
            let a = count-append k (held_of t.ofile) others in
            let b = count-append k (f ∷ held_of (set t.ofile fd none)) others in
            let c = clear_lem t.ofile fd f k e in omega (arith, a, b, c))
          w in
      keeps_continue (AllHeld others) (fileclose f t.files).0 (λ _. pure (pos 0))
        (record (put_descriptor fd none t) { files = (fileclose f t.files).1 })
        (fileclose-AreHeld (held_of (set t.ofile fd none) ++ others) f t.files v) (λ _ t1 w1. w1)

  pub Keeps-sys_close : Keeps (AllHeld others) sys_close
  unfolding sys_close
  Keeps-sys_close t w = elim (Option-cases (argfd 0 t)) [
    | inl e ↦ rw (e, sys_close) w
    | inr ((fd, f), e) ↦
        rw (e, sys_close) (close_descriptor-AllHeld fd f t (argfd_lem 0 t fd f e) w)
  ]

  -- A call on the table that keeps the counts.
  pub Keeps-on_files :
      {A : Type 0} (m : Action Files A)
      → ((held : List ℕ) → Keeps (AreHeld held) m)
      → Keeps (AllHeld others) (on_files m)
  Keeps-on_files m h t w = h (held_of t.ofile ++ others) t.files w

  pub Keeps-sys_read :
      (devices : ℕ → Option ℕ) (killed : Bool) → Keeps (AllHeld others) (sys_read devices killed)
  unfolding sys_read read_file
  Keeps-sys_read devices killed t w = elim (Option-cases (argbuf t)) [
    | inl e ↦ rw (e, sys_read) w
    | inr ((f, p, n), e) ↦
        rw (e, sys_read)
          (keeps_then (AllHeld others) (on_files (fileread devices killed f n))
            (λ r. modify (store_bytes p (received r)) >> pure r) t w
            (Keeps-on_files (fileread devices killed f n)
              (λ held. Keeps-fileread held devices killed f n))
            (λ r t1 w1. w1))
  ]

  Keeps-write_file :
      (held : List ℕ) (devices : ℕ → Option ℕ) (killed : Bool) (f : ℕ) (m : Memory) (p n : ℕ)
      → Keeps (AreHeld held) (write_file devices killed f m p n)
  unfolding write_file filewrite_negative
  Keeps-write_file held devices killed f m p n t w =
      keeps_if (AreHeld held) (leb (2 ^ 31) n) (filewrite_negative f n)
        (filewrite devices killed f (bytes_at m p n)) t w
        (Keeps-filewrite held devices killed f (bytes_at m p n) t w)

  pub Keeps-sys_write :
      (devices : ℕ → Option ℕ) (killed : Bool) → Keeps (AllHeld others) (sys_write devices killed)
  unfolding sys_write
  Keeps-sys_write devices killed t w = elim (Option-cases (argbuf t)) [
    | inl e ↦ rw (e, sys_write) w
    | inr ((f, p, n), e) ↦
        rw (e, sys_write)
          (keeps_then (AllHeld others) (on_files (write_file devices killed f t.user.memory p n))
            (λ r. pure (some r)) t w
            (Keeps-on_files (write_file devices killed f t.user.memory p n)
              (λ held. Keeps-write_file held devices killed f t.user.memory p n))
            (λ r t1 w1. w1))
  ]

  pub Keeps-sys_fstat : Keeps (AllHeld others) sys_fstat
  unfolding sys_fstat
  Keeps-sys_fstat t w = elim (Option-cases (argfd 0 t)) [
    | inl e ↦ rw (e, sys_fstat) w
    | inr ((fd, f), e) ↦ elim (Option-cases (argptr t.user 1 20)) [
      | inl g ↦ rw (e, sys_fstat, g) w
      | inr (p, g) ↦
          rw (e, sys_fstat, g)
            (keeps_then (AllHeld others) (on_files (filestat f)) _ t w
              (Keeps-on_files (filestat f) (λ held. Keeps-filestat held f)) (λ r t1 w1. w1))
    ]
  ]

  seek_ref : (offset base : ℕ) (x : File) → (seek offset base x).ref ≡ x.ref
  seek_ref offset base x = elim (Bool-cases (base == 0)) [
    | inl a ↦ rw a refl
    | inr a ↦ elim (Bool-cases (base == 1)) [ inl b ↦ rw (a, b) refl | inr b ↦ rw (a, b) refl ]
  ]

  pub Keeps-sys_lseek : Keeps (AllHeld others) sys_lseek
  unfolding sys_lseek
  Keeps-sys_lseek t w = elim (Option-cases (argfd 0 t)) [
    | inl e ↦ rw (e, sys_lseek) w
    | inr ((fd, f), e) ↦ elim (Option-cases (argint t.user 1)) [
      | inl g ↦ rw (e, sys_lseek, g) w
      | inr (offset, g) ↦ elim (Option-cases (argint t.user 2)) [
        | inl h ↦ rw (e, sys_lseek, g, h) w
        | inr (base, h) ↦
            rw (e, sys_lseek, g, h)
              (on_file-AreHeld (held_of t.ofile ++ others) (seek offset base) f t.files
                (seek_ref offset base) w)
      ]
    ]
  ]
