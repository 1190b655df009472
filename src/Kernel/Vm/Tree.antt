-- ===== src/Kernel/Vm/Tree.antt =====
-- What the page tables of kernel/vm.c map, and well-formed trees of tables.
use base_system.Base.{
  ℕ, ◌+◌, ◌*◌, ◌%◌, ◌^◌, ◌≤◌, ◌<◌, ◌≡◌, ◌≢◌, ◌⊎◌, refl, inl, inr, Bool, true, arith, ◌==◌,
  if◌then◌else◌, Bool-cases,
}
use base_system.Kernel.Text.{Memory}
use base_system.Kernel.Pages.{kernbase, phystop}
use base_system.Kernel.Pages.Ownership.{count}
use base_system.Kernel.Fs.{uint_at, put_uint}
use base_system.Kernel.Vm.{Vm, p2v, pdx, ptx, pte_addr, is_present}
use base_system.Kernel.Vm.Words.{uint_apart}
use base_system.Kernel.Fs.Inodes.Layout.{uint_at-put_uint}

-- The word of the directory `d` for its `i`-th table, and the table's address.
abbrev pub directory_entry : Memory → ℕ → ℕ → ℕ
directory_entry m d i = uint_at m (d + i * 4)

abbrev pub table : Memory → ℕ → ℕ → ℕ
table m d i = p2v (pte_addr (directory_entry m d i))

abbrev pub has_table : Memory → ℕ → ℕ → Bool
has_table m d i = is_present (directory_entry m d i)

-- The entry of an address, zero where there is no table.
abbrev pub entry : Memory → ℕ → ℕ → ℕ
entry m d va = if has_table m d (pdx va) then uint_at m (table m d (pdx va) + ptx va * 4) else 0

-- A page of the kernel's part of the memory.
abbrev pub IsPage : ℕ → Type 0
IsPage v = (v % 4096 ≡ 0) × (kernbase ≤ v) × (v < kernbase + phystop)

-- The directory, its tables and the free pages are pages, and no two of them are the same.
pub record IsTree (d : ℕ) (s : Vm) : Type 0 where
  pub root : IsPage d
  pub tables :
      (i : ℕ)
      → i < 1024
      → has_table s.memory d i ≡ true
      → IsPage (table s.memory d i) × (table s.memory d i ≢ d)
  pub distinct :
      (i j : ℕ)
      → i < 1024
      → j < 1024
      → has_table s.memory d i ≡ true
      → has_table s.memory d j ≡ true
      → table s.memory d i ≡ table s.memory d j
      → i ≡ j
  pub free : (v : ℕ) → 1 ≤ count v s.kmem.freelist → IsPage v × (v ≢ d)
  pub unused :
      (v i : ℕ)
      → 1 ≤ count v s.kmem.freelist
      → i < 1024
      → has_table s.memory d i ≡ true
      → table s.memory d i ≢ v
  pub once : (v : ℕ) → count v s.kmem.freelist ≤ 1

pub decide : (a b : ℕ) → (a ≡ b) ⊎ (a ≢ b)
decide a b = elim (Bool-cases (a == b)) [ inl e ↦ inl (ground arith) | inr e ↦ inr (ground arith) ]

-- An entry of a table is no word of the directory.
pub directory_apart :
    (d t j i v : ℕ) (m : Memory)
    → IsPage d
    → IsPage t
    → t ≢ d
    → i < 1024
    → j < 1024
    → directory_entry (put_uint (t + j * 4) v m) d i ≡ directory_entry m d i
directory_apart d t j i v m (da, _, _) (ta, _, _) n l k =
    uint_apart (t + j * 4) (d + i * 4) v m (omega arith) (omega arith) (λ e. n (omega (arith, e)))

-- Memory with the same directory: what there is of tables stays.
pub IsTree-same :
    (d : ℕ) (s : Vm) (m : Memory)
    → IsTree d s
    → ((i : ℕ) → i < 1024 → directory_entry m d i ≡ directory_entry s.memory d i)
    → IsTree d (record s { memory = m })
IsTree-same d s m w h = record {
  root = w.root;
  tables = λ i l. rw (h i l) (w.tables i l);
  distinct = λ i j l k. rw (h i l, h j k) (w.distinct i j l k);
  free = w.free;
  unused = λ v i c l. rw (h i l) (w.unused v i c l);
  once = w.once;
}

-- The page of an address, by its number in the directory and in the table.
abbrev pub AreOnePage : ℕ → ℕ → Type 0
AreOnePage a b = (pdx a ≡ pdx b) × (ptx a ≡ ptx b)

pub entry-put_here :
    (d a v : ℕ) (s : Vm)
    → IsTree d s
    → has_table s.memory d (pdx a) ≡ true
    → v < 2 ^ 32
    → entry (put_uint (table s.memory d (pdx a) + ptx a * 4) v s.memory) d a ≡ v
entry-put_here d a v s w h l =
    let (p, n) = w.tables (pdx a) (omega arith) h in
    let same =
      directory_apart d (table s.memory d (pdx a)) (ptx a) (pdx a) v s.memory w.root p n
        (omega arith) (omega arith) in
    rw (same, h) (uint_at-put_uint (table s.memory d (pdx a) + ptx a * 4) v s.memory l)

pub entry-put_apart :
    (d a b v : ℕ) (s : Vm)
    → IsTree d s
    → has_table s.memory d (pdx a) ≡ true
    → (AreOnePage a b → ⊥)
    → entry (put_uint (table s.memory d (pdx a) + ptx a * 4) v s.memory) d b ≡ entry s.memory d b
entry-put_apart d a b v s w h n =
    let (p, o) = w.tables (pdx a) (omega arith) h in
    let same =
      directory_apart d (table s.memory d (pdx a)) (ptx a) (pdx b) v s.memory w.root p o
        (omega arith) (omega arith) in
    elim (Bool-cases (has_table s.memory d (pdx b))) [
      | inl e ↦
          let (q, _) = w.tables (pdx b) (omega arith) e in
          rw (same, e)
            (uint_apart (table s.memory d (pdx a) + ptx a * 4)
              (table s.memory d (pdx b) + ptx b * 4) v s.memory (omega (arith, p.0))
              (omega (arith, q.0))
              (λ eq.
                let t : table s.memory d (pdx a) ≡ table s.memory d (pdx b) =
                  omega (arith, p.0, q.0, eq) in
                n (
                  w.distinct (pdx a) (pdx b) (omega arith) (omega arith) h e t,
                  omega (arith, t, eq),
                )))
      | inr e ↦ rw (same, e) refl
    ]
