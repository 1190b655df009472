-- ===== src/Kernel/Vm/Growth.antt =====
-- The growth of a process by `allocuvm` of kernel/vm.c.
use base_system.Base.{
  ℕ, zero, suc, ◌+◌, ◌-◌, ◌*◌, ◌/◌, ◌%◌, ◌^◌, ◌≤◌, ◌<◌, ◌≡◌, refl, sym, ap, ◌∙◌, inl, inr, Bool,
  true, false, List, [], ◌∷◌, arith, ltb, leb, Bool-cases, length,
}
use base_system.Kernel.Action.{ok}
use base_system.Kernel.Text.{Memory}
use base_system.Kernel.Pages.{pgsize, kernbase, v2p, kalloc, pg_round_up}
use base_system.Kernel.Pages.Ownership.{count}
use base_system.Kernel.Vm.{
  Vm, pdx, is_present, entry_for, fill_page, map_page, map_from, mappages, pg_round_down, pte_wu,
  walkpgdir, set_entry, new_table,
}
use base_system.Kernel.Vm.Space.{alloc_from, allocuvm}
use base_system.Kernel.Vm.Tree.{IsTree, entry, has_table, IsPage}
use base_system.Kernel.Vm.Fresh.{v2p_aligned}
use base_system.Kernel.Vm.Words.{entry_for_lem}
use base_system.Kernel.Vm.Entries.{IsMapped, map_page_lem, vm_of}
use base_system.Kernel.Vm.Mapping.{entry_page}
use base_system.Kernel.Vm.Taken.{directory_entry-fill_page, entry-fill_page, IsTree-fill_page}

one_page :
    (d a pa perm : ℕ) (s : Vm)
    → a % 4096 ≡ 0
    → a < kernbase
    → mappages d a pgsize pa perm s ≡ map_page d a pa perm s
unfolding mappages map_from
one_page d a pa perm s al l =
    let k : (pg_round_down ((a + pgsize + 2 ^ 32 - 1) % 2 ^ 32) + 2 ^ 32 - pg_round_down a)
          % 2 ^ 32
          / pgsize
        ≡ 0 =
      omega arith in
    let z : a / 4096 * 4096 ≡ a = omega arith in rw (k, z) refl

map_page_none :
    (d a pa perm : ℕ) (u : Bool) (m : Memory)
    → has_table m d (pdx a) ≡ false
    → map_page d a pa perm (vm_of u [] m) ≡ (ok false, vm_of u [] m)
unfolding map_page walkpgdir set_entry new_table kalloc
map_page_none d a pa perm u m h = rw h refl

alloc_from_end : (k d newsz a : ℕ) (s : Vm) → newsz ≤ a → alloc_from k d newsz a s ≡ (ok true, s)
unfolding alloc_from
alloc_from_end zero d newsz a s l = refl
alloc_from_end (suc k) d newsz a s l = let e : ltb a newsz ≡ false = ground arith in rw e refl

alloc_from_round :
    (k d newsz a r : ℕ) (rest : List ℕ) (u b : Bool) (m : Memory) (s1 : Vm)
    → a < newsz
    → newsz ≤ kernbase
    → a % 4096 ≡ 0
    → map_page d a (v2p r) pte_wu (vm_of u rest (fill_page r 0 m)) ≡ (ok b, s1)
    → alloc_from (suc k) d newsz a (vm_of u (r ∷ rest) m) ≡ alloc_from k d newsz (a + pgsize) s1
unfolding alloc_from kalloc
alloc_from_round k d newsz a r rest u b m s1 l c al h =
    let e : ltb a newsz ≡ true = ground arith in
    let o = one_page d a (v2p r) pte_wu (vm_of u rest (fill_page r 0 m)) al (omega arith) in
    rw (e, o, h) refl

-- With one free page and no table for the first new address, `allocuvm` by up to a page returns the
-- new size, but the new address is not mapped, and the page is lost.
pub allocuvm_unmapped :
    (kernel_end d oldsz newsz r : ℕ) (u : Bool) (m : Memory)
    → IsTree d (vm_of u (r ∷ []) m)
    → newsz < kernbase
    → oldsz ≤ newsz
    → pg_round_up oldsz < newsz
    → newsz ≤ pg_round_up oldsz + pgsize
    → has_table m d (pdx (pg_round_up oldsz)) ≡ false
    → (s1 : Vm) × (allocuvm kernel_end d oldsz newsz (vm_of u (r ∷ []) m) ≡ (ok newsz, s1))
      × (s1.kmem.freelist ≡ [])
      × (entry s1.memory d (newsz - 1) ≡ 0)
unfolding allocuvm
allocuvm_unmapped kernel_end d oldsz newsz r u m w a b c e h =
    let x : leb kernbase newsz ≡ false = ground arith in
    let y : ltb newsz oldsz ≡ false = ground arith in
    let m1 = fill_page r 0 m in
    let same = directory_entry-fill_page d r (pdx (pg_round_up oldsz)) [] u m w (omega arith) in
    let h1 : has_table m1 d (pdx (pg_round_up oldsz)) ≡ false = rw same h in
    let f = map_page_none d (pg_round_up oldsz) (v2p r) pte_wu u m1 h1 in
    let p : pdx (newsz - 1) ≡ pdx (pg_round_up oldsz) = omega arith in
    let round =
      alloc_from_round (newsz / pgsize) d newsz (pg_round_up oldsz) r [] u false m (vm_of u [] m1) c
        (omega arith) (omega arith) f in
    let end =
      alloc_from_end (newsz / pgsize) d newsz (pg_round_up oldsz + pgsize) (vm_of u [] m1) e in
    let n : newsz / pgsize + 1 ≡ suc (newsz / pgsize) = omega arith in
    (vm_of u [] m1, rw (x, y, n, round, end) refl, refl, rw (p, h1) refl)

-- The entry of a page for user programs: the physical address with the bits 1 (present), 2 (writable)
-- and 4 (for the user).
abbrev pub IsUserEntry : ℕ → Type 0
IsUserEntry e = (v : ℕ) × IsPage v × (e + 0x80000000 ≡ v + 1 + 2 + 4)

user_entry : (v : ℕ) → IsPage v → entry_for (v2p v) pte_wu + 0x80000000 ≡ v + 1 + 2 + 4
user_entry v p = omega (arith, entry_for_lem (v2p v) pte_wu (v2p_aligned v p) (omega arith), p)

-- What the loop of `allocuvm` gives from `a` on.
pub record IsGrown (d a newsz : ℕ) (s s1 : Vm) : Type 0 where
  pub tree : IsTree d s1
  pub grown : (b : ℕ) → a ≤ b → b < newsz → IsUserEntry (entry s1.memory d b)
  pub before : (b : ℕ) → b < a → entry s1.memory d b ≡ entry s.memory d b

map_fresh :
    (d a r : ℕ) (rest : List ℕ) (u : Bool) (m : Memory)
    → IsTree d (vm_of u (r ∷ rest) m)
    → 1 ≤ length rest
    → is_present (entry m d a) ≡ false
    → (s1 : Vm) × (map_page d a (v2p r) pte_wu (vm_of u rest (fill_page r 0 m)) ≡ (ok true, s1))
      × IsMapped d a (entry_for (v2p r) pte_wu) (vm_of u rest (fill_page r 0 m)) s1
unfolding count
map_fresh d a r rest u m w l h =
    let (fresh, n) = w.free r (ground arith) in
    let same = entry-fill_page d r a rest u m w in
    elim (map_page_lem d a (v2p r) pte_wu (vm_of u rest (fill_page r 0 m))
      (IsTree-fill_page d r rest u m w) (v2p_aligned r fresh) (omega arith) (omega arith)) [
        | inl (e, k) ↦ absurd (ground (arith, sym h ∙ ap is_present (sym same) ∙ k))
        | inr (inl (e, k)) ↦ absurd (ground (arith, k))
        | inr (inr q) ↦ q
      ]

IsGrown-round :
    (d a newsz r : ℕ) (s s1 s2 : Vm)
    → IsPage r
    → a % 4096 ≡ 0
    → a < newsz
    → newsz ≤ kernbase
    → ((b : ℕ) → entry s.memory d b ≡ entry s1.memory d b)
    → (s3 : Vm) × IsMapped d a (entry_for (v2p r) pte_wu) s1 s3 × IsGrown d (a + 4096) newsz s3 s2
    → IsGrown d a newsz s s2
IsGrown-round d a newsz r s s1 s2 p al lt l same (s3, m, g) = record {
  tree = g.tree;
  grown = λ b u v. elim (Bool-cases (ltb b (a + 4096))) [
    | inl e ↦ (
      r,
      p,
      rw
          (entry_page b a d s2.memory (ground arith, ground arith)
            ∙ g.before a (omega arith)
            ∙ m.here)
          (user_entry r p),
    )
    | inr e ↦ g.grown b (ground arith) v
  ];
  before = λ b u.
      g.before b (omega arith) ∙ m.elsewhere b (λ (x, y). omega (arith, x, y)) ∙ sym (same b);
}

-- The loop of `allocuvm`, with rounds enough: if the pages of the range are not mapped and two pages
-- are free for each, it comes to its end.
alloc_from_lem :
    (k d newsz a : ℕ) (u : Bool) (fl : List ℕ) (m : Memory)
    → IsTree d (vm_of u fl m)
    → a % 4096 ≡ 0
    → newsz ≤ kernbase
    → newsz ≤ a + k * 4096
    → ((b : ℕ) → a ≤ b → b < newsz → is_present (entry m d b) ≡ false)
    → (newsz + 4095 - a) / 4096 * 2 ≤ length fl
    → (s1 : Vm) × (alloc_from k d newsz a (vm_of u fl m) ≡ (ok true, s1))
      × IsGrown d a newsz (vm_of u fl m) s1
unfolding count
alloc_from_lem zero d newsz a u fl m w al c f h free = (
  vm_of u fl m,
  alloc_from_end 0 d newsz a (vm_of u fl m) (omega arith),
  record { tree = w; grown = λ b x y. absurd (omega arith); before = λ b x. refl },
)
alloc_from_lem (suc k) d newsz a u [] m w al c f h free = (
  vm_of u [] m,
  alloc_from_end (suc k) d newsz a (vm_of u [] m) (omega arith),
  record { tree = w; grown = λ b x y. absurd (omega arith); before = λ b x. refl },
)
alloc_from_lem (suc k) d newsz a u (r ∷ rest) m w al c f h free = elim (Bool-cases (ltb a newsz)) [
  | inl e ↦
      let (fresh, _) = w.free r (ground arith) in
      let (s1, e1, i) =
        map_fresh d a r rest u m w (ground arith) (h a (omega arith) (ground arith)) in
      let keep : (b : ℕ) → entry m d b ≡ entry (fill_page r 0 m) d b =
        λ b. sym (entry-fill_page d r b rest u m w) in
      let (s2, e2, g) =
        alloc_from_lem k d newsz (a + 4096) s1.kmem.use_lock s1.kmem.freelist s1.memory i.tree
          (omega arith) c (omega arith)
          (λ b x y.
            ap is_present (i.elsewhere b (λ (p, q). absurd (omega (arith, p, q))) ∙ sym (keep b))
            ∙ h b (omega arith) y)
          (ground (arith, i.taken)) in
      (
        s2,
        alloc_from_round k d newsz a r rest u true m s1 (ground arith) c al e1 ∙ e2,
        IsGrown-round d a newsz r (vm_of u (r ∷ rest) m) (vm_of u rest (fill_page r 0 m)) s2 fresh
            al (ground arith) c keep (s1, i, g),
      )
  | inr e ↦ (
    vm_of u (r ∷ rest) m,
    alloc_from_end (suc k) d newsz a (vm_of u (r ∷ rest) m) (ground arith),
    record { tree = w; grown = λ b x y. absurd (ground arith); before = λ b x. refl },
  )
]

-- `allocuvm` to a larger size below the kernel in a well-formed tree, where the pages of the new
-- addresses are not mapped and two pages are free for each: it returns the new size, each new address
-- above the old last page has an entry that is the address of a page of the kernel's memory with the
-- bits for present, writable and user, each address below is mapped as before, and the tree is well-formed.
pub allocuvm_lem :
    (kernel_end d oldsz newsz : ℕ) (s : Vm)
    → IsTree d s
    → newsz < kernbase
    → oldsz ≤ newsz
    → ((b : ℕ) → pg_round_up oldsz ≤ b → b < newsz → is_present (entry s.memory d b) ≡ false)
    → (newsz + 4095 - pg_round_up oldsz) / 4096 * 2 ≤ length s.kmem.freelist
    → (s1 : Vm) × (allocuvm kernel_end d oldsz newsz s ≡ (ok newsz, s1))
      × IsGrown d (pg_round_up oldsz) newsz s s1
unfolding allocuvm
allocuvm_lem kernel_end d oldsz newsz s w l o h f =
    let x : leb kernbase newsz ≡ false = ground arith in
    let y : ltb newsz oldsz ≡ false = ground arith in
    let (s1, e, g) =
      alloc_from_lem (newsz / pgsize + 1) d newsz (pg_round_up oldsz) s.kmem.use_lock
        s.kmem.freelist s.memory w (omega arith) (omega arith) (omega arith) h f in
    (s1, rw (x, y, e) refl, g)
