-- ===== src/Kernel/Vm/Tests.antt =====
-- An empty page directory, with two or one free pages.
use base_system.Base.{ℕ, ◌/◌, ◌≤◌, ◌≡◌, ◌⊎◌, refl, true, false, [], ◌∷◌, arith}
use base_system.Kernel.Action.{ok, panic}
use base_system.Kernel.Pages.Ownership.{count}
use base_system.Kernel.Vm.{mappages, is_present}
use base_system.Kernel.Vm.Space.{allocuvm}
use base_system.Kernel.Vm.Tree.{IsTree, entry}
use base_system.Kernel.Vm.Entries.{vm_of}
use base_system.Kernel.Vm.Mapping.{IsRange, mappages_lem}
use base_system.Kernel.Vm.Growth.{IsGrown, allocuvm_lem, allocuvm_unmapped}

abbrev first_page : ℕ
first_page = 0x80002000

abbrev second_page : ℕ
second_page = 0x80003000

abbrev root_page : ℕ
root_page = 0x80001000

two_free-IsTree : IsTree root_page (vm_of false (first_page ∷ second_page ∷ []) (λ _. 0))
unfolding count
two_free-IsTree = record {
  root = (refl, omega arith, omega arith);
  tables = λ i l h. absurd (ground (arith, h));
  distinct = λ i j l k h. absurd (ground (arith, h));
  free = λ v c. (ground arith, ground arith);
  unused = λ v i c l h. absurd (ground (arith, h));
  once = λ v. ground arith;
}

one_free-IsTree : IsTree root_page (vm_of false (first_page ∷ []) (λ _. 0))
unfolding count
one_free-IsTree = record {
  root = (refl, omega arith, omega arith);
  tables = λ i l h. absurd (ground (arith, h));
  distinct = λ i j l k h. absurd (ground (arith, h));
  free = λ v c. (ground arith, ground arith);
  unused = λ v i c l h. absurd (ground (arith, h));
  once = λ v. ground arith;
}

mappages_lem_example :
    let s = vm_of false (first_page ∷ second_page ∷ []) (λ _. 0) in
    (((mappages root_page 0 8000 0x5000 6 s).0 ≡ panic)
      × ((b : ℕ) × (0 ≤ b / 4096)
          × (b / 4096 ≤ 1)
          × (is_present (entry s.memory root_page b) ≡ true)))
    ⊎ ((s1 : _) × (mappages root_page 0 8000 0x5000 6 s ≡ (ok false, s1))
        × IsTree root_page s1
        × (s1.kmem.freelist ≡ []))
    ⊎ ((s1 : _) × (mappages root_page 0 8000 0x5000 6 s ≡ (ok true, s1))
        × IsRange root_page 0 8000 0x5000 6 s s1)
mappages_lem_example =
    mappages_lem root_page 0 8000 0x5000 6 (vm_of false (first_page ∷ second_page ∷ []) (λ _. 0))
      two_free-IsTree (omega arith) (omega arith) refl (omega arith) (omega arith)

allocuvm_lem_example :
    let s = vm_of false (first_page ∷ second_page ∷ []) (λ _. 0) in
    (s1 : _) × (allocuvm 0 root_page 0 100 s ≡ (ok 100, s1)) × IsGrown root_page 0 100 s s1
allocuvm_lem_example =
    allocuvm_lem 0 root_page 0 100 (vm_of false (first_page ∷ second_page ∷ []) (λ _. 0))
      two_free-IsTree (omega arith) (omega arith) (λ b _ _. refl) (omega arith)

allocuvm_unmapped_example :
    (s1 : _) × (allocuvm 0 root_page 0 100 (vm_of false (first_page ∷ []) (λ _. 0)) ≡ (ok 100, s1))
    × (s1.kmem.freelist ≡ [])
    × (entry s1.memory root_page 99 ≡ 0)
allocuvm_unmapped_example =
    allocuvm_unmapped 0 root_page 0 100 first_page false (λ _. 0) one_free-IsTree (omega arith)
      (omega arith) (omega arith) (omega arith) refl
