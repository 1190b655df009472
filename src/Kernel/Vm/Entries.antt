-- ===== src/Kernel/Vm/Entries.antt =====
-- `walkpgdir` of kernel/vm.c, and the entry that `mappages` sets.
use base_system.Base.{
  ℕ, ◌+◌, ◌*◌, ◌%◌, ◌^◌, ◌≤◌, ◌<◌, ◌≡◌, ◌≢◌, ◌⊎◌, refl, sym, ap, ◌∙◌, inl, inr, Bool, true, false,
  none, some, [], ◌∷◌, arith, Bool-cases, List, length,
}
use base_system.Kernel.Action.{ok, panic}
use base_system.Kernel.Text.{Memory}
use base_system.Kernel.Pages.{kalloc}
use base_system.Kernel.Pages.Ownership.{count}
use base_system.Kernel.Fs.{uint_at, put_uint}
use base_system.Kernel.Vm.{
  Vm, pdx, ptx, is_present, entry_for, walkpgdir, set_entry, map_page, new_table,
}
use base_system.Kernel.Vm.Words.{entry_roundtrip}
use base_system.Kernel.Vm.Tree.{
  AreOnePage, IsTree, IsTree-same, directory_apart, entry, entry-put_apart, entry-put_here,
  has_table, table,
}
use base_system.Kernel.Vm.Fresh.{made, made_has, made_table, entry-made, made-IsTree}

-- A word of an entry of an address that has a table now, with the rest as it was.
pub record IsWalked (d va : ℕ) (s s1 : Vm) : Type 0 where
  pub tree : IsTree d s1
  pub present : has_table s1.memory d (pdx va) ≡ true
  pub same : (b : ℕ) → entry s1.memory d b ≡ entry s.memory d b
  pub taken : length s.kmem.freelist ≤ length s1.kmem.freelist + 1

abbrev pub vm_of : Bool → List ℕ → Memory → Vm
vm_of u fl m = record { kmem = record { use_lock = u; freelist = fl }; memory = m }

-- What `walkpgdir` may do.
abbrev pub Walk : ℕ → ℕ → Vm → Type 0
Walk d va s =
    ((walkpgdir d va true s ≡ (ok none, s)) × (s.kmem.freelist ≡ []))
    ⊎ ((s1 : Vm) × (walkpgdir d va true s
          ≡ (ok (some (table s1.memory d (pdx va) + ptx va * 4)), s1))
        × IsWalked d va s s1)

Walk-new_table :
    (d va : ℕ) (u : Bool) (fl : List ℕ) (m : Memory)
    → IsTree d (vm_of u fl m)
    → has_table m d (pdx va) ≡ false
    → Walk d va (vm_of u fl m)
unfolding walkpgdir new_table kalloc count
Walk-new_table d va u [] m w h = inl (rw h refl, refl)
Walk-new_table d va u (r ∷ rest) m w h =
    let (fresh, n) = w.free r (ground arith) in
    let n' : d ≢ r = λ e. n (sym e) in
    let at : table (made d (pdx va) r m) d (pdx va) ≡ r =
      made_table d (pdx va) r m w.root fresh n' (omega arith) in
    inr (
      vm_of u rest (made d (pdx va) r m),
      rw (h, at) refl,
      record {
        tree = made-IsTree d va r rest u m w;
        present = made_has d (pdx va) r m w.root fresh n' (omega arith);
        same = λ b.
            entry-made d va r b m w.root fresh n' h
              (λ j l k. let (p, o) = w.tables j l k in (p, o, w.unused r j (ground arith) l k));
        taken = omega arith;
      },
    )

-- `walkpgdir` that may allocate: without a table and a free page it fails with nothing changed;
-- otherwise it gives the address of the entry, and no entry of any address has changed.
pub walkpgdir_lem : (d va : ℕ) (s : Vm) → IsTree d s → Walk d va s
unfolding walkpgdir
walkpgdir_lem d va s w = elim (Bool-cases (has_table s.memory d (pdx va))) [
  | inl h ↦
      inr (s, rw h refl, record { tree = w; present = h; same = λ b. refl; taken = omega arith })
  | inr h ↦ Walk-new_table d va s.kmem.use_lock s.kmem.freelist s.memory w h
]

-- What mapping the page of `a` may do.
pub record IsMapped (d a pte : ℕ) (s s1 : Vm) : Type 0 where
  pub tree : IsTree d s1
  pub here : entry s1.memory d a ≡ pte
  pub elsewhere : (b : ℕ) → (AreOnePage a b → ⊥) → entry s1.memory d b ≡ entry s.memory d b
  pub taken : length s.kmem.freelist ≤ length s1.kmem.freelist + 1

-- A round of `mappages` panics if the page is mapped already, fails with nothing changed if there is
-- no page for a table, and otherwise maps this page and changes no other.
pub map_page_lem :
    (d a pa perm : ℕ) (s : Vm)
    → IsTree d s
    → pa % 4096 ≡ 0
    → pa < 2 ^ 32
    → perm < 4096
    → (((map_page d a pa perm s).0 ≡ panic) × (is_present (entry s.memory d a) ≡ true))
      ⊎ ((map_page d a pa perm s ≡ (ok false, s)) × (s.kmem.freelist ≡ []))
      ⊎ ((s1 : Vm) × (map_page d a pa perm s ≡ (ok true, s1))
          × IsMapped d a (entry_for pa perm) s s1)
unfolding map_page set_entry
map_page_lem d a pa perm s w al l p = elim (walkpgdir_lem d a s w) [
  | inl (e, f) ↦ inr (inl (rw e refl, f))
  | inr (s1, e, k) ↦
      let pte = table s1.memory d (pdx a) + ptx a * 4 in
      let old : entry s1.memory d a ≡ uint_at s1.memory pte = rw k.present refl in
      elim (Bool-cases (is_present (uint_at s1.memory pte))) [
        | inl h ↦ inl (rw (e, h) refl, ap is_present (sym (k.same a) ∙ old) ∙ h)
        | inr h ↦ inr (
            inr (
              record s1 { memory = put_uint pte (entry_for pa perm) s1.memory },
              rw (e, h) refl,
              record {
                tree = IsTree-same d s1 (put_uint pte (entry_for pa perm) s1.memory) k.tree (λ i u.
                    let (q, n) = k.tree.tables (pdx a) (omega arith) k.present in
                    directory_apart d (table s1.memory d (pdx a)) (ptx a) i (entry_for pa perm)
                      s1.memory k.tree.root q n u (omega arith));
                here =
                    entry-put_here d a (entry_for pa perm) s1 k.tree k.present
                      (entry_roundtrip pa perm al l p).0;
                elsewhere = λ b n.
                    entry-put_apart d a b (entry_for pa perm) s1 k.tree k.present n ∙ k.same b;
                taken = k.taken;
              },
            ))
      ]
]
