-- ===== src/Kernel/Descriptors/References.antt =====
-- The reference counts of the open files against the descriptors of a process and all other references.
use base_system.Base.{
  ℕ, zero, suc, ◌+◌, ◌-◌, ◌≤◌, ◌≡◌, refl, sym, ap, ◌∙◌, inl, inr, Bool, false, Option, none, some,
  List, [], ◌∷◌, ◌++◌, arith, ◌==◌, if◌then◌else◌, get_or, set, length, take, drop, Bool-cases,
  Option-cases, ◌⊎◌,
}
use base_system.Kernel.Action.{Action, ok, ◌>>=◌, ◌>>◌, pure, Keeps, keeps_then, keeps_if}
use base_system.Kernel.Pages.Ownership.{count, remove, count-remove}
use base_system.Kernel.Fs.{Fs}
use base_system.Kernel.File.{
  FileType, fd_none, fd_pipe, fd_inode, File, Files, no_file, file_at, on_file, on_fs, filealloc,
  unused_file, filedup, fileclose, filestat, stat_of, fileread, read_of, filewrite, write_of,
  write_loop, end_round, max_write, written, from_inode, read_step, get_some,
}
use base_system.Kernel.File.Counts.{
  IsCounted, one_more, filedup_lem, closed-IsCounted, unused_file_lem,
}
use base_system.Kernel.Fs.Content.{readi, writei, uint_sum}
use base_system.Kernel.Fs.Inodes.{ilock, iunlock}

-- The references that descriptors hold.
abbrev pub held_of : List (Option ℕ) → List ℕ
held_of [] = []
held_of (none ∷ ofile) = held_of ofile
held_of (some f ∷ ofile) = f ∷ held_of ofile

-- The count of each file is the number of the references that are held, and each of them is to a file
-- of the table.
abbrev pub AreHeld : List ℕ → Files → Type 0
AreHeld held t = IsCounted (record { files = t; held = held })

pub count-append : (k : ℕ) (xs ys : List ℕ) → count k (xs ++ ys) ≡ count k xs + count k ys
unfolding count
count-append k [] ys = omega arith
count-append k (x ∷ xs) ys = let h = count-append k xs ys in ground arith

-- Other references that are as many.
pub AreHeld-total :
    (held other : List ℕ) (t : Files)
    → ((k : ℕ) → count k other ≡ count k held)
    → AreHeld held t
    → AreHeld other t
AreHeld-total held other t e w = record {
  counts = λ k. w.counts k ∙ sym (e k);
  inside = λ k p. w.inside k (omega (arith, e k));
}

-- A change of a file that leaves its count.
same_refs :
    (table : List File) (f k : ℕ) (g : File → File)
    → ((x : File) → (g x).ref ≡ x.ref)
    → ((get_or (set table f (g (get_or table f no_file))) k no_file).ref
        ≡ (get_or table k no_file).ref)
      × (length (set table f (g (get_or table f no_file))) ≡ length table)
same_refs [] f k g h = (refl, refl)
same_refs (x ∷ table) zero zero g h = (h x, refl)
same_refs (x ∷ table) zero (suc k) g h = (refl, refl)
same_refs (x ∷ table) (suc f) zero g h = (refl, ap suc (same_refs table f 0 g h).1)
same_refs (x ∷ table) (suc f) (suc k) g h = let (a, b) = same_refs table f k g h in (a, ap suc b)

pub on_file-AreHeld :
    (held : List ℕ) (g : File → File) (f : ℕ) (t : Files)
    → ((x : File) → (g x).ref ≡ x.ref)
    → AreHeld held t
    → AreHeld held (on_file g f t)
on_file-AreHeld held g f t h w = record {
  counts = λ k. (same_refs t.table f k g h).0 ∙ w.counts k;
  inside = λ k p. omega (arith, w.inside k p, (same_refs t.table f k g h).1);
}

-- Calls of the file system leave the table.
pub Keeps-on_fs : {A : Type 0} (held : List ℕ) (m : Action Fs A) → Keeps (AreHeld held) (on_fs m)
Keeps-on_fs held m t w = record { counts = w.counts; inside = w.inside }

-- A step on the inodes, and what follows.
then_on_fs :
    {A B : Type 0} (held : List ℕ) (m : Action Fs A) (f : A → Action Files B) (t : Files)
    → AreHeld held t
    → ((a : A) → Keeps (AreHeld held) (f a))
    → AreHeld held ((on_fs m >>= f) t).1
then_on_fs held m f t w h = keeps_then (AreHeld held) (on_fs m) f t w (Keeps-on_fs held m) h

Keeps-stat_of : (held : List ℕ) (x : File) (k : FileType) → Keeps (AreHeld held) (stat_of x k)
Keeps-stat_of held x fd_none t w = w
Keeps-stat_of held x fd_pipe t w = w
Keeps-stat_of held x fd_inode t w =
    then_on_fs held (ilock x.ip) _ t w
      (λ _ t1 w1. then_on_fs held (iunlock x.ip) _ t1 w1 (λ _ t2 w2. w2))

pub Keeps-filestat : (held : List ℕ) (f : ℕ) → Keeps (AreHeld held) (filestat f)
unfolding filestat
Keeps-filestat held f t w = Keeps-stat_of held (file_at t f) (file_at t f).type t w

Keeps-read_of :
    (held : List ℕ) (devices : ℕ → Option ℕ) (killed : Bool) (f : ℕ) (x : File) (n : ℕ)
    (k : FileType)
    → Keeps (AreHeld held) (read_of devices killed f x n k)
Keeps-read_of held devices killed f x n fd_none t w = w
Keeps-read_of held devices killed f x n fd_pipe t w = record {
  counts = w.counts;
  inside = w.inside;
}
Keeps-read_of held devices killed f x n fd_inode t w =
    then_on_fs held (ilock x.ip) _ t w (λ _ t1 w1.
      then_on_fs held (readi devices x.ip x.off n) _ t1 w1 (λ r t2 w2.
        let moved = λ (y : File). record y { off = uint_sum y.off (read_step r) } in
        then_on_fs held (iunlock x.ip) (λ _. pure (from_inode r)) (on_file moved f t2)
          (on_file-AreHeld held moved f t2 (λ y. refl) w2) (λ _ t4 w4. w4)))

pub Keeps-fileread :
    (held : List ℕ) (devices : ℕ → Option ℕ) (killed : Bool) (f n : ℕ)
    → Keeps (AreHeld held) (fileread devices killed f n)
unfolding fileread
Keeps-fileread held devices killed f n t w =
    keeps_if (AreHeld held) (file_at t f).readable
      (read_of devices killed f (file_at t f) n (file_at t f).type) _ t
      (Keeps-read_of held devices killed f (file_at t f) n (file_at t f).type t w) w

Keeps-end_round : (held : List ℕ) (n : ℕ) (r : Option ℕ) → Keeps (AreHeld held) (end_round n r)
Keeps-end_round held n none t w = w
Keeps-end_round held n (some r) t w = elim (Bool-cases (r == n)) [ inl e ↦ rw e w | inr e ↦ rw e w ]

after_round : ℕ → ℕ → Option ℕ → Action Files Bool → Action Files Bool
after_round i n r rest = do
  on_fs (iunlock i)
  more ← end_round n r
  if more then rest else pure false

Keeps-after_round :
    (held : List ℕ) (i n : ℕ) (r : Option ℕ) (rest : Action Files Bool)
    → Keeps (AreHeld held) rest
    → Keeps (AreHeld held) (after_round i n r rest)
unfolding after_round
Keeps-after_round held i n r rest h t w =
    then_on_fs held (iunlock i) (λ _. end_round n r >>= λ more. if more then rest else pure false) t
      w
      (λ _ t1 w1.
        keeps_then (AreHeld held) (end_round n r) (λ more. if more then rest else pure false) t1 w1
          (Keeps-end_round held n r)
          (λ more t2 w2. keeps_if (AreHeld held) more rest (pure false) t2 (h t2 w2) w2))

Keeps-write_loop :
    (held : List ℕ) (k : ℕ) (devices : ℕ → Option ℕ) (f i : ℕ) (src : List ℕ)
    → Keeps (AreHeld held) (write_loop k devices f i src)
unfolding write_loop after_round
Keeps-write_loop held zero devices f i src t w = w
Keeps-write_loop held (suc k) devices f i src t w = elim (Bool-cases (length src == 0)) [
  | inl e ↦ rw e w
  | inr e ↦ rw e (
      then_on_fs held (ilock i) _ t w (λ _ t1 w1.
        then_on_fs held (writei devices i (take max_write src) (file_at t1 f).off) _ t1 w1
          (λ r t2 w2.
            let moved = λ (y : File). record y { off = uint_sum y.off (get_some (written r)) } in
            Keeps-after_round held i (length (take max_write src)) (written r)
              (write_loop k devices f i (drop max_write src))
              (Keeps-write_loop held k devices f i (drop max_write src)) (on_file moved f t2)
              (on_file-AreHeld held moved f t2 (λ y. refl) w2))))
]

Keeps-write_of :
    (held : List ℕ) (devices : ℕ → Option ℕ) (killed : Bool) (f : ℕ) (x : File) (src : List ℕ)
    (k : FileType)
    → Keeps (AreHeld held) (write_of devices killed f x src k)
Keeps-write_of held devices killed f x src fd_none t w = w
Keeps-write_of held devices killed f x src fd_pipe t w = record {
  counts = w.counts;
  inside = w.inside;
}
Keeps-write_of held devices killed f x src fd_inode t w =
    keeps_then (AreHeld held) (write_loop (length src) devices f x.ip src) _ t w
      (Keeps-write_loop held (length src) devices f x.ip src) (λ _ t1 w1. w1)

pub Keeps-filewrite :
    (held : List ℕ) (devices : ℕ → Option ℕ) (killed : Bool) (f : ℕ) (src : List ℕ)
    → Keeps (AreHeld held) (filewrite devices killed f src)
unfolding filewrite
Keeps-filewrite held devices killed f src t w =
    keeps_if (AreHeld held) (file_at t f).writable
      (write_of devices killed f (file_at t f) src (file_at t f).type) _ t
      (Keeps-write_of held devices killed f (file_at t f) src (file_at t f).type t w) w

-- The table calls.
pub filealloc-AreHeld :
    (held : List ℕ) (t : Files)
    → AreHeld held t
    → (filealloc t ≡ (ok none, t))
      ⊎ ((f : ℕ) × (t1 : Files) × (filealloc t ≡ (ok (some f), t1)) × AreHeld (f ∷ held) t1)
unfolding filealloc
filealloc-AreHeld held t w = elim (Option-cases (unused_file 0 t.table)) [
  | inl e ↦ inl (rw (e, filealloc) refl)
  | inr (f, e) ↦
      let (_, l, z) = unused_file_lem 0 t.table f e in
      let at : f ≡ f - 0 = omega arith in
      let free : (file_at t f).ref ≡ 0 = ap (λ x. (get_or t.table x no_file).ref) at ∙ z in
      inr (
        f,
        on_file (λ x. record x { ref = 1 }) f t,
        rw (e, filealloc) refl,
        one_more (record { files = t; held = held }) f (λ x. record x { ref = 1 }) w (omega arith)
            (omega (arith, free)),
      )
]

pub filedup-AreHeld :
    (held : List ℕ) (f : ℕ) (t : Files)
    → AreHeld held t
    → 1 ≤ count f held
    → ((filedup f t).0 ≡ ok f) × AreHeld (f ∷ held) (filedup f t).1
filedup-AreHeld held f t w one =
    let c = w.counts f in
    let e = filedup_lem f t (omega (arith, c)) in
    (
      ap (λ r. r.0) e,
      rw e (
          one_more (record { files = t; held = held }) f (λ x. record x { ref = x.ref + 1 }) w
            (w.inside f one) refl),
    )

pub fileclose-AreHeld :
    (held : List ℕ) (f : ℕ) (t : Files) → AreHeld (f ∷ held) t → AreHeld held (fileclose f t).1
unfolding count
fileclose-AreHeld held f t w =
    let one : 1 ≤ count f (f ∷ held) = ground arith in
    AreHeld-total (remove f (f ∷ held)) held (fileclose f t).1
      (λ k. let r = count-remove k f (f ∷ held) one in ground (arith, r))
      (closed-IsCounted (record { files = t; held = f ∷ held }) f w one)
