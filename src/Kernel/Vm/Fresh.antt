-- ===== src/Kernel/Vm/Fresh.antt =====
-- A fresh page table of kernel/vm.c in its directory.
use base_system.Base.{
  ℕ, ◌+◌, ◌*◌, ◌%◌, ◌≤◌, ◌<◌, ◌≡◌, ◌≢◌, ◌⊎◌, refl, sym, ap, ◌∙◌, inl, inr, Bool, true, false, ◌∷◌,
  arith, Bool-cases, List,
}
use base_system.Kernel.Text.{Memory}
use base_system.Kernel.Pages.{kernbase, phystop, v2p}
use base_system.Kernel.Pages.Ownership.{count}
use base_system.Kernel.Fs.{uint_at, put_uint}
use base_system.Kernel.Vm.{p2v, pdx, ptx, pte_addr, is_present, entry_for, fill_page, pte_wu}
use base_system.Kernel.Vm.Words.{entry_roundtrip, uint_apart, fill_apart, fill_zero}
use base_system.Kernel.Fs.Inodes.Layout.{uint_at-put_uint}
use base_system.Kernel.Vm.Tree.{IsPage, IsTree, decide, directory_entry, entry, has_table, table}

-- `d` with the fresh table `r` at its entry `i`.
abbrev pub made : ℕ → ℕ → ℕ → Memory → Memory
made d i r m = put_uint (d + i * 4) (entry_for (v2p r) pte_wu) (fill_page r 0 m)

pub p2v-v2p : (v : ℕ) → kernbase ≤ v → v < kernbase + phystop → p2v (v2p v) ≡ v
p2v-v2p v a b = omega arith

pub v2p_aligned : (v : ℕ) → IsPage v → v2p v % 4096 ≡ 0
v2p_aligned v (a, b, c) = omega arith

module _ (d i r : ℕ) (m : Memory) (root : IsPage d) (fresh : IsPage r) (n : d ≢ r)
    (l : i < 1024) where
  pub made_here : directory_entry (made d i r m) d i ≡ entry_for (v2p r) pte_wu
  made_here =
      uint_at-put_uint (d + i * 4) (entry_for (v2p r) pte_wu) (fill_page r 0 m)
        (entry_roundtrip (v2p r) pte_wu (v2p_aligned r fresh) (omega arith) (omega arith)).0

  pub made_has : has_table (made d i r m) d i ≡ true
  made_has =
      ap is_present made_here
      ∙ (entry_roundtrip (v2p r) pte_wu (v2p_aligned r fresh) (omega arith) (omega arith)).1

  pub made_table : table (made d i r m) d i ≡ r
  made_table =
      ap (λ e. p2v (pte_addr e)) made_here
      ∙ ap p2v (entry_roundtrip (v2p r) pte_wu (v2p_aligned r fresh) (omega arith) (omega arith)).2
      ∙ p2v-v2p r fresh.1 fresh.2

  made_other :
      (j : ℕ) → j < 1024 → j ≢ i → directory_entry (made d i r m) d j ≡ directory_entry m d j
  made_other j k o =
      uint_apart (d + i * 4) (d + j * 4) (entry_for (v2p r) pte_wu) (fill_page r 0 m)
        (omega (arith, root.0)) (omega (arith, root.0)) (λ e. o (omega (arith, e)))
      ∙ fill_apart r 0 (d + j * 4) m fresh.0 (omega (arith, root.0))
          (λ e. n (omega (arith, root.0, e)))

  made_zero : (k : ℕ) → k < 1024 → uint_at (made d i r m) (r + k * 4) ≡ 0
  made_zero k u =
      uint_apart (d + i * 4) (r + k * 4) (entry_for (v2p r) pte_wu) (fill_page r 0 m)
        (omega (arith, root.0)) (omega (arith, fresh.0))
        (λ e. n (omega (arith, root.0, fresh.0, e)))
      ∙ fill_zero r k m u

  made_apart :
      (t k : ℕ)
      → IsPage t
      → t ≢ d
      → t ≢ r
      → k < 1024
      → uint_at (made d i r m) (t + k * 4) ≡ uint_at m (t + k * 4)
  made_apart t k p a b u =
      uint_apart (d + i * 4) (t + k * 4) (entry_for (v2p r) pte_wu) (fill_page r 0 m)
        (omega (arith, root.0)) (omega (arith, p.0)) (λ e. a (omega (arith, root.0, p.0, e)))
      ∙ fill_apart r 0 (t + k * 4) m fresh.0 (omega (arith, p.0)) (λ e. b (omega (arith, p.0, e)))

  made_at :
      (j : ℕ)
      → j < 1024
      → has_table (made d i r m) d j ≡ true
      → ((j ≡ i) × (table (made d i r m) d j ≡ r))
        ⊎ ((j ≢ i) × (has_table m d j ≡ true) × (table (made d i r m) d j ≡ table m d j))
  made_at j k h = elim (decide j i) [
    | inl e ↦ inl (e, rw e made_table)
    | inr e ↦ inr (
      e,
      ap is_present (sym (made_other j k e)) ∙ h,
      ap (λ x. p2v (pte_addr x)) (made_other j k e),
    )
  ]

-- The entries of a directory with a fresh table.
pub entry-made :
    (d va r b : ℕ) (m : Memory)
    → IsPage d
    → IsPage r
    → d ≢ r
    → has_table m d (pdx va) ≡ false
    → ((j : ℕ)
        → j < 1024
        → has_table m d j ≡ true
        → IsPage (table m d j) × (table m d j ≢ d) × (table m d j ≢ r))
    → entry (made d (pdx va) r m) d b ≡ entry m d b
entry-made d va r b m root fresh n absent ts = elim (decide (pdx b) (pdx va)) [
  | inl e ↦
      rw
        (
          e,
          made_has d (pdx va) r m root fresh n (omega arith),
          made_table d (pdx va) r m root fresh n (omega arith),
          absent,
        )
        (made_zero d (pdx va) r m root fresh n (omega arith) (ptx b) (omega arith))
  | inr e ↦
      let same = made_other d (pdx va) r m root fresh n (omega arith) (pdx b) (omega arith) e in
      elim (Bool-cases (has_table m d (pdx b))) [
        | inl h ↦
            let (p, u, w) = ts (pdx b) (omega arith) h in
            rw (same, h)
              (made_apart d (pdx va) r m root fresh n (omega arith) (table m d (pdx b)) (ptx b) p u
                w (omega arith))
        | inr h ↦ rw (same, h) refl
      ]
]

pub made-IsTree :
    (d va r : ℕ) (rest : List ℕ) (u : Bool) (m : Memory)
    → IsTree d (record { kmem = record { use_lock = u; freelist = r ∷ rest }; memory = m })
    → IsTree d
        (record { kmem = record { use_lock = u; freelist = rest }; memory = made d (pdx va) r m })
unfolding count
made-IsTree d va r rest u m w =
    let (fresh, n) = w.free r (ground arith) in
    let n' : d ≢ r = λ e. n (sym e) in
    let at = made_at d (pdx va) r m w.root fresh n' (omega arith) in
    record {
      root = w.root;
      tables = λ i l h. elim (at i l h) [
        | inl (e, t) ↦ rw t (fresh, n)
        | inr (e, k, t) ↦ rw t (w.tables i l k)
      ];
      distinct = λ i j l k h g eq. elim (at i l h) [
        | inl (e, t) ↦ elim (at j k g) [
          | inl (e', t') ↦ e ∙ sym e'
          | inr (e', k', t') ↦ absurd (w.unused r j (ground arith) k k' (sym t' ∙ sym eq ∙ t))
        ]
        | inr (e, q, t) ↦ elim (at j k g) [
          | inl (e', t') ↦ absurd (w.unused r i (ground arith) l q (sym t ∙ eq ∙ t'))
          | inr (e', q', t') ↦ w.distinct i j l k q q' (sym t ∙ eq ∙ t')
        ]
      ];
      free = λ v c. w.free v (ground arith);
      unused = λ v i c l h. elim (at i l h) [
        | inl (e, t) ↦ λ eq. absurd (ground (arith, w.once v, t, eq))
        | inr (e, k, t) ↦ rw t (w.unused v i (ground arith) l k)
      ];
      once = λ v. ground (arith, w.once v);
    }
