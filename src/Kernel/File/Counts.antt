-- ===== src/Kernel/File/Counts.antt =====
-- The reference counts of kernel/file.c against those who hold the files.
use native.Mathlib.Decide.{ℕ_discrete}
use base_system.Base.{
  ℕ, suc, ◌+◌, ◌-◌, ◌≤◌, ◌<◌, ◌≡◌, refl, sym, ap, ◌∙◌, true, false, some, List, [], ◌∷◌, arith,
  ◌==◌, ltb, if◌then◌else◌, get_or, set, length, get_or-set_self, get_or-set_ne, length-set,
  Bool-cases, inl, inr,
}
use base_system.Kernel.Action.{ok}
use base_system.Kernel.Pages.Ownership.{count, remove, count-remove}
use base_system.Kernel.File.{
  FileType, fd_none, fd_pipe, fd_inode, File, Files, no_file, file_at, on_file, unused_file,
  filealloc, filedup, close_last, fileclose,
}

-- The references that the descriptors and the calls in progress hold, one entry for each.
pub record Held : Type 0 where
  pub files : Files
  pub held : List ℕ

-- The count of each file is the number of its references, and each reference is to a file of the table.
pub record IsCounted (h : Held) : Type 0 where
  pub counts : (f : ℕ) → (file_at h.files f).ref ≡ count f h.held
  pub inside : (f : ℕ) → 1 ≤ count f h.held → f < length h.files.table

close_last-table : (x : File) (k : FileType) (t : Files) → (close_last x k t).1.table ≡ t.table
close_last-table x fd_none t = refl
close_last-table x fd_pipe t = refl
close_last-table x fd_inode t = refl

abbrev decremented : File → File
decremented y = record y { ref = y.ref - 1 }

abbrev cleared : File → File
cleared y = record y { ref = 0; type = fd_none }

fileclose_shared :
    (f : ℕ) (t : Files)
    → ltb (file_at t f).ref 1 ≡ false
    → ltb 0 ((file_at t f).ref - 1) ≡ true
    → fileclose f t ≡ (ok tt, on_file decremented f t)
unfolding fileclose
fileclose_shared f t a b = rw a (rw b refl)

fileclose_last :
    (f : ℕ) (t : Files)
    → ltb (file_at t f).ref 1 ≡ false
    → ltb 0 ((file_at t f).ref - 1) ≡ false
    → (fileclose f t).1.table ≡ (on_file cleared f (on_file decremented f t)).table
unfolding fileclose
fileclose_last f t a b = rw a (rw b (close_last-table (file_at t f) (file_at t f).type _))

-- The counts after a change of one file.
pub on_file_ref :
    (g : File → File) (f h : ℕ) (t : Files)
    → f < length t.table
    → (file_at (on_file g f t) h).ref
      ≡ (if h == f then (g (file_at t f)).ref else (file_at t h).ref)
on_file_ref g f h t l = elim (ℕ_discrete f h) [
  | yes e ↦
      let b : (h == f) ≡ true = ground arith in
      let self = get_or-set_self t.table f (g (file_at t f)) no_file l in
      rw b (
        ap (λ x. (get_or (set t.table f (g (file_at t f))) x no_file).ref) (sym e)
        ∙ ap (λ x. x.ref) self)
  | no ne ↦
      let b : (h == f) ≡ false = ground arith in
      rw b (ap (λ x. x.ref) (get_or-set_ne t.table f h (g (file_at t f)) no_file ne))
]

fileclose_ref :
    (f h : ℕ) (t : Files)
    → f < length t.table
    → 1 ≤ (file_at t f).ref
    → ((file_at (fileclose f t).1 h).ref
        ≡ (if h == f then (file_at t f).ref - 1 else (file_at t h).ref))
      × (length (fileclose f t).1.table ≡ length t.table)
fileclose_ref f h t l one =
    let a : ltb (file_at t f).ref 1 ≡ false = ground arith in
    let dec = on_file_ref decremented f h t l in
    let len = length-set t.table f (decremented (file_at t f)) in
    elim (Bool-cases (ltb 0 ((file_at t f).ref - 1))) [
      | inl b ↦ rw (fileclose_shared f t a b) (dec, len)
      | inr b ↦
          let t1 = on_file decremented f t in
          let e = fileclose_last f t a b in
          let clear = on_file_ref cleared f h t1 (omega (arith, len, l)) in
          let len1 = length-set t1.table f (cleared (file_at t1 f)) in
          rw e (ground (arith, clear, dec, b), len1 ∙ len)
    ]

-- `filealloc` finds an entry of the table with no references.
pub unused_file_lem :
    (i : ℕ) (table : List File) (f : ℕ)
    → unused_file i table ≡ some f
    → (i ≤ f) × (f < i + length table) × ((get_or table (f - i) no_file).ref ≡ 0)
unfolding unused_file
unused_file_lem i [] f h = absurd (cc)
unused_file_lem i (x ∷ table) f h = elim (Bool-cases (x.ref == 0)) [
  | inl e ↦
      let first : some i ≡ some f = rw e at h in
      let same : i ≡ f = cc in
      let at : f - i ≡ 0 = omega arith in (omega arith, omega arith, rw at (ground arith))
  | inr e ↦
      let later : unused_file (i + 1) table ≡ some f = rw e at h in
      let (a, b, c) = unused_file_lem (i + 1) table f later in
      let at : f - i ≡ suc (f - (i + 1)) = omega arith in (omega arith, omega (arith, b), rw at c)
]

-- A call on the table by one who may make it.
pub data Step (h : Held) : Held → Type 0 where
  allocates :
      (f : ℕ)
      → unused_file 0 h.files.table ≡ some f
      → Step h (record { files = (filealloc h.files).1; held = f ∷ h.held })
  duplicates :
      (f : ℕ)
      → 1 ≤ count f h.held
      → Step h (record { files = (filedup f h.files).1; held = f ∷ h.held })
  closes :
      (f : ℕ)
      → 1 ≤ count f h.held
      → Step h (record { files = (fileclose f h.files).1; held = remove f h.held })

pub data Reach (h : Held) : Held → Type 0 where
  here : Reach h h
  next : {g k : Held} → Reach h g → Step g k → Reach h k

-- A new reference to a file whose count goes up by one.
pub one_more :
    (h : Held) (f : ℕ) (g : File → File)
    → IsCounted h
    → f < length h.files.table
    → (g (file_at h.files f)).ref ≡ (file_at h.files f).ref + 1
    → IsCounted (record { files = on_file g f h.files; held = f ∷ h.held })
unfolding count
one_more h f g w l up = record {
  counts = λ k.
      let e = on_file_ref g f k h.files l in
      let c = w.counts k in let d = w.counts f in ground (arith, e, c, d, up);
  inside = λ k p.
      let len = length-set h.files.table f (g (file_at h.files f)) in
      elim (ℕ_discrete k f) [
        | yes e ↦ omega (arith, len, l, e)
        | no ne ↦ let i = w.inside k (ground arith) in omega (arith, len, i)
      ];
}

pub filealloc_lem :
    (f : ℕ) (t : Files)
    → unused_file 0 t.table ≡ some f
    → filealloc t ≡ (ok (some f), on_file (λ x. record x { ref = 1 }) f t)
unfolding filealloc
filealloc_lem f t h = rw (h, filealloc) refl

pub filedup_lem :
    (f : ℕ) (t : Files)
    → 1 ≤ (file_at t f).ref
    → filedup f t ≡ (ok f, on_file (λ y. record y { ref = y.ref + 1 }) f t)
unfolding filedup
filedup_lem f t h = let a : ltb (file_at t f).ref 1 ≡ false = ground arith in rw a refl

-- A reference less to a file whose count goes down by one.
pub closed-IsCounted :
    (h : Held) (f : ℕ)
    → IsCounted h
    → 1 ≤ count f h.held
    → IsCounted (record { files = (fileclose f h.files).1; held = remove f h.held })
closed-IsCounted h f w one = record {
  counts = λ k.
      let l = w.inside f one in
      let c = w.counts f in
      let (e, len) = fileclose_ref f k h.files l (omega (arith, c)) in
      let d = w.counts k in let r = count-remove k f h.held one in ground (arith, e, c, d, r);
  inside = λ k p.
      let l = w.inside f one in
      let c = w.counts f in
      let (e, len) = fileclose_ref f k h.files l (omega (arith, c)) in
      let r = count-remove k f h.held one in
      let i = w.inside k (omega (arith, r)) in omega (arith, len, i);
}

Step-IsCounted : (h k : Held) → IsCounted h → Step h k → IsCounted k
Step-IsCounted h _ w (allocates f e) =
    let (_, l, z) = unused_file_lem 0 h.files.table f e in
    let at : f ≡ f - 0 = omega arith in
    let free : (file_at h.files f).ref ≡ 0 =
      ap (λ x. (get_or h.files.table x no_file).ref) at ∙ z in
    rw (filealloc_lem f h.files e)
      (one_more h f (λ x. record x { ref = 1 }) w (omega arith) (omega (arith, free)))
Step-IsCounted h _ w (duplicates f one) =
    let c = w.counts f in
    rw (filedup_lem f h.files (omega (arith, c)))
      (one_more h f (λ x. record x { ref = x.ref + 1 }) w (w.inside f one) refl)
Step-IsCounted h _ w (closes f one) = closed-IsCounted h f w one

-- After any calls of `filealloc`, `filedup` and `fileclose` from a table in which no file is in use,
-- where one who calls `filedup` or `fileclose` for a file holds a reference to it: the count of each
-- file is the number of references that are held, and each is to a file of the table.
pub Reach-IsCounted :
    (h k : Held) → h.held ≡ [] → ((f : ℕ) → (file_at h.files f).ref ≡ 0) → Reach h k → IsCounted k
unfolding count
Reach-IsCounted h _ none_held unused here = record {
  counts = λ f. rw none_held (unused f);
  inside = λ f. rw none_held (λ p. absurd (omega arith));
}
Reach-IsCounted h k none_held unused (next {g} before step) =
    Step-IsCounted g k (Reach-IsCounted h g none_held unused before) step
