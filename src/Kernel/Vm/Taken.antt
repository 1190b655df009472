-- ===== src/Kernel/Vm/Taken.antt =====
-- A free page of kernel/vm.c that is taken and cleared: the page tables stay.
use base_system.Base.{ℕ, ◌+◌, ◌*◌, ◌<◌, ◌≡◌, refl, inl, inr, Bool, List, ◌∷◌, arith, Bool-cases}
use base_system.Kernel.Text.{Memory}
use base_system.Kernel.Pages.Ownership.{count}
use base_system.Kernel.Vm.{pdx, ptx, fill_page}
use base_system.Kernel.Vm.Words.{fill_apart}
use base_system.Kernel.Vm.Tree.{IsTree, IsTree-same, entry, table, has_table, directory_entry}
use base_system.Kernel.Vm.Entries.{vm_of}

pub directory_entry-fill_page :
    (d r i : ℕ) (rest : List ℕ) (u : Bool) (m : Memory)
    → IsTree d (vm_of u (r ∷ rest) m)
    → i < 1024
    → directory_entry (fill_page r 0 m) d i ≡ directory_entry m d i
unfolding count
directory_entry-fill_page d r i rest u m w l =
    let (fresh, n) = w.free r (ground arith) in
    fill_apart r 0 (d + i * 4) m fresh.0 (omega (arith, w.root.0))
      (λ e. n (omega (arith, w.root.0, fresh.0, e)))

pub entry-fill_page :
    (d r b : ℕ) (rest : List ℕ) (u : Bool) (m : Memory)
    → IsTree d (vm_of u (r ∷ rest) m)
    → entry (fill_page r 0 m) d b ≡ entry m d b
unfolding count
entry-fill_page d r b rest u m w =
    let same = directory_entry-fill_page d r (pdx b) rest u m w (omega arith) in
    elim (Bool-cases (has_table m d (pdx b))) [
      | inl h ↦
          let (fresh, n) = w.free r (ground arith) in
          let (p, o) = w.tables (pdx b) (omega arith) h in
          let x = w.unused r (pdx b) (ground arith) (omega arith) h in
          rw (same, h)
            (fill_apart r 0 (table m d (pdx b) + ptx b * 4) m fresh.0 (omega (arith, p.0))
              (λ e. x (omega (arith, p.0, fresh.0, e))))
      | inr h ↦ rw (same, h) refl
    ]

pub IsTree-fill_page :
    (d r : ℕ) (rest : List ℕ) (u : Bool) (m : Memory)
    → IsTree d (vm_of u (r ∷ rest) m)
    → IsTree d (vm_of u rest (fill_page r 0 m))
unfolding count
IsTree-fill_page d r rest u m w =
    let less : IsTree d (vm_of u rest m) = record {
      root = w.root;
      tables = w.tables;
      distinct = w.distinct;
      free = λ v c. w.free v (ground arith);
      unused = λ v i c. w.unused v i (ground arith);
      once = λ v. ground (arith, w.once v);
    } in
    IsTree-same d (vm_of u rest m) (fill_page r 0 m) less
      (λ i l. directory_entry-fill_page d r i rest u m w l)
