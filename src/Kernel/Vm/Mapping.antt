-- ===== src/Kernel/Vm/Mapping.antt =====
-- The loop of `mappages` of kernel/vm.c, and the growth of a process by `allocuvm`.
use base_system.Base.{
  ℕ, zero, suc, ◌+◌, ◌-◌, ◌*◌, ◌/◌, ◌%◌, ◌^◌, ◌≤◌, ◌<◌, ◌≡◌, ◌⊎◌, refl, sym, ap, ◌∙◌, inl, inr,
  true, false, [], arith,
}
use base_system.Kernel.Action.{ok, panic}
use base_system.Kernel.Text.{Memory}
use base_system.Kernel.Pages.{pgsize}
use base_system.Kernel.Vm.{Vm, is_present, entry_for, map_from, mappages, pg_round_down}
use base_system.Kernel.Vm.Tree.{IsTree, entry, AreOnePage}
use base_system.Kernel.Vm.Words.{entry_for_lem}
use base_system.Kernel.Vm.Entries.{IsMapped, map_page_lem}

-- The pages from `a` on, `k` after the first, are mapped to the pages from `pa` on, and no other has
-- changed.
pub record AreMapped (d k a pa perm : ℕ) (s s1 : Vm) : Type 0 where
  pub tree : IsTree d s1
  pub here : (i : ℕ) → i ≤ k → entry s1.memory d (a + i * 4096) ≡ entry_for (pa + i * 4096) perm
  pub elsewhere :
      (b : ℕ)
      → ((i : ℕ) → i ≤ k → AreOnePage (a + i * 4096) b → ⊥)
      → entry s1.memory d b ≡ entry s.memory d b

-- How the loop may end: at a page that is mapped already, without a free page, or with all mapped.
abbrev pub Mapping : ℕ → ℕ → ℕ → ℕ → ℕ → Vm → Type 0
Mapping d k a pa perm s =
    (((map_from k d a pa perm s).0 ≡ panic)
      × ((i : ℕ) × (i ≤ k) × (is_present (entry s.memory d (a + i * 4096)) ≡ true)))
    ⊎ ((s1 : Vm) × (map_from k d a pa perm s ≡ (ok false, s1))
        × IsTree d s1
        × (s1.kmem.freelist ≡ []))
    ⊎ ((s1 : Vm) × (map_from k d a pa perm s ≡ (ok true, s1)) × AreMapped d k a pa perm s s1)

pub different_pages :
    (a i : ℕ) → a % 4096 ≡ 0 → 1 ≤ i → a + i * 4096 < 2 ^ 32 → AreOnePage a (a + i * 4096) → ⊥
different_pages a i al l w (p, q) = omega (arith, p, q)

map_from_one :
    (d a pa perm : ℕ) (s : Vm)
    → IsTree d s
    → pa % 4096 ≡ 0
    → pa < 2 ^ 32
    → perm < 4096
    → Mapping d 0 a pa perm s
unfolding map_from
map_from_one d a pa perm s w al l p =
    let ea : a + 0 ≡ a = omega arith in
    elim (map_page_lem d a pa perm s w al l p) [
      | inl (e, h) ↦ inl (e, (0, omega arith, rw ea h))
      | inr (inl (e, f)) ↦ inr (inl (s, e, w, f))
      | inr (inr (s1, e, k)) ↦ inr (
          inr (
            s1,
            e,
            record {
              tree = k.tree;
              here = λ i u.
                  let z : i ≡ 0 = omega arith in
                  let zp : pa + 0 ≡ pa = omega arith in rw (z, ea, zp) k.here;
              elsewhere = λ b n. k.elsewhere b (rw ea at (n 0 (omega arith)));
            },
          ))
    ]

present_later :
    (d k a i : ℕ) (s s1 : Vm) (perm pa : ℕ)
    → a % 4096 ≡ 0
    → a + suc k * 4096 < 2 ^ 32
    → i ≤ k
    → IsMapped d a (entry_for pa perm) s s1
    → is_present (entry s1.memory d (a + 4096 + i * 4096)) ≡ true
    → is_present (entry s.memory d (a + suc i * 4096)) ≡ true
present_later d k a i s s1 perm pa al l u m h =
    let e : a + 4096 + i * 4096 ≡ a + suc i * 4096 = omega arith in
    ap is_present (
      sym
        (m.elsewhere (a + suc i * 4096) (different_pages a (suc i) al (omega arith) (omega arith))))
    ∙ rw (sym e) h

module _ (k d a pa perm : ℕ) (s s1 s2 : Vm) (al : a % 4096 ≡ 0) (l : a + suc k * 4096 < 2 ^ 32)
    (m : IsMapped d a (entry_for pa perm) s s1)
    (q : AreMapped d k (a + 4096) (pa + 4096) perm s1 s2) where
  next_page : (i : ℕ) → a + 4096 + i * 4096 ≡ a + suc i * 4096
  next_page i = omega arith

  here_step :
      (i : ℕ) → i ≤ suc k → entry s2.memory d (a + i * 4096) ≡ entry_for (pa + i * 4096) perm
  here_step zero u =
      let z : a + 0 ≡ a = omega arith in
      let zp : pa + 0 ≡ pa = omega arith in
      rw (z, zp)
        (q.elsewhere a (λ i v o.
            let (x, y) = rw (next_page i) at o in
            different_pages a (suc i) al (omega arith) (omega arith) (sym x, sym y))
          ∙ m.here)
  here_step (suc i) u =
      let ep : pa + 4096 + i * 4096 ≡ pa + suc i * 4096 = omega arith in
      rw (next_page i, ep) at (q.here i (omega arith))

  AreMapped-step : AreMapped d (suc k) a pa perm s s2
  AreMapped-step = record {
    tree = q.tree;
    here = here_step;
    elsewhere = λ b n.
        q.elsewhere b (λ i v o. n (suc i) (omega arith) (rw (next_page i) at o))
        ∙ m.elsewhere b (λ o. n 0 (omega arith) (let z : a + 0 ≡ a = omega arith in rw z o));
  }

map_from_lem :
    (k d a pa perm : ℕ) (s : Vm)
    → IsTree d s
    → a % 4096 ≡ 0
    → a + k * 4096 < 2 ^ 32
    → pa % 4096 ≡ 0
    → pa + k * 4096 < 2 ^ 32
    → perm < 4096
    → Mapping d k a pa perm s
unfolding map_from
map_from_lem zero d a pa perm s w aa al pp pl f = map_from_one d a pa perm s w pp (omega arith) f
map_from_lem (suc k) d a pa perm s w aa al pp pl f =
    let na : (a + 4096) % 2 ^ 32 ≡ a + 4096 = omega arith in
    let np : (pa + 4096) % 2 ^ 32 ≡ pa + 4096 = omega arith in
    elim (map_page_lem d a pa perm s w pp (omega arith) f) [
      | inl (e, h) ↦ let z : a + 0 ≡ a = omega arith in inl (rw e refl, (0, omega arith, rw z h))
      | inr (inl (e, g)) ↦ inr (inl (s, rw e refl, w, g))
      | inr (inr (s1, e, m)) ↦
          elim (map_from_lem k d (a + 4096) (pa + 4096) perm s1 m.tree (omega arith) (omega arith)
            (omega arith) (omega arith) f) [
              | inl (e1, (i, u, h)) ↦ inl (
                rw (e, na, np) e1,
                (suc i, omega arith, present_later d k a i s s1 perm pa aa al u m h),
              )
              | inr (inl (s2, e1, t, g)) ↦ inr (inl (s2, rw (e, na, np) e1, t, g))
              | inr (inr (s2, e1, q)) ↦
                  inr (inr (s2, rw (e, na, np) e1, AreMapped-step k d a pa perm s s1 s2 aa al m q))
            ]
    ]

pub entry_page : (a b d : ℕ) (m : Memory) → AreOnePage a b → entry m d a ≡ entry m d b
entry_page a b d m (p, q) = rw (p, q) refl

-- The addresses from `va` on, `size` of them, are mapped to those from `pa` on, page by page: an entry
-- is the page's address with the flags in its low bits, the lowest set. The pages outside are mapped
-- as before.
pub record IsRange (d va size pa perm : ℕ) (s s1 : Vm) : Type 0 where
  pub tree : IsTree d s1
  pub inside :
      (b : ℕ)
      → va ≤ b
      → b < va + size
      → entry s1.memory d b ≡ pa + (b / 4096 - va / 4096) * 4096 + perm / 2 * 2 + 1
  pub outside :
      (b : ℕ)
      → b < 2 ^ 32
      → (b / 4096 < va / 4096) ⊎ ((va + size - 1) / 4096 < b / 4096)
      → entry s1.memory d b ≡ entry s.memory d b

IsRange-AreMapped :
    (d va size pa perm : ℕ) (s s1 : Vm)
    → pa % 4096 ≡ 0
    → perm < 4096
    → 1 ≤ size
    → va + size ≤ 2 ^ 32
    → AreMapped d ((va + size - 1) / 4096 - va / 4096) (va / 4096 * 4096) pa perm s s1
    → IsRange d va size pa perm s s1
IsRange-AreMapped d va size pa perm s s1 al f z l m = record {
  tree = m.tree;
  inside = λ b u v.
      entry_page b (va / 4096 * 4096 + (b / 4096 - va / 4096) * 4096) d s1.memory
        (omega arith, omega arith)
      ∙ m.here (b / 4096 - va / 4096) (omega arith)
      ∙ entry_for_lem (pa + (b / 4096 - va / 4096) * 4096) perm (omega arith) f;
  outside = λ b w o. m.elsewhere b (λ i u (x, y). absurd (ground arith));
}

-- `mappages` of a range of addresses that does not go around the end, to pages that do not either, in
-- a well-formed tree: it panics only if a page of the range is mapped already, gives -1 only when no
-- page is free, and otherwise the entry of each address of the range is the sum of its page's address
-- and the flags with bit 0 (`PTE_P`) set, each page outside is mapped as before, and the tree is
-- well-formed.
pub mappages_lem :
    (d va size pa perm : ℕ) (s : Vm)
    → IsTree d s
    → 1 ≤ size
    → va + size ≤ 2 ^ 32
    → pa % 4096 ≡ 0
    → pa + va % 4096 + size ≤ 2 ^ 32
    → perm < 4096
    → (((mappages d va size pa perm s).0 ≡ panic)
        × ((b : ℕ) × (va / 4096 ≤ b / 4096)
            × (b / 4096 ≤ (va + size - 1) / 4096)
            × (is_present (entry s.memory d b) ≡ true)))
      ⊎ ((s1 : Vm) × (mappages d va size pa perm s ≡ (ok false, s1))
          × IsTree d s1
          × (s1.kmem.freelist ≡ []))
      ⊎ ((s1 : Vm) × (mappages d va size pa perm s ≡ (ok true, s1))
          × IsRange d va size pa perm s s1)
unfolding mappages
mappages_lem d va size pa perm s w z l al pl f =
    let k = (va + size - 1) / 4096 - va / 4096 in
    let rounds : (pg_round_down ((va + size + 2 ^ 32 - 1) % 2 ^ 32) + 2 ^ 32 - pg_round_down va)
          % 2 ^ 32
          / pgsize
        ≡ k =
      omega arith in
    elim (map_from_lem k d (va / 4096 * 4096) pa perm s w (omega arith) (omega arith) al
      (omega arith) f) [
        | inl (e, (i, u, h)) ↦
            inl (rw rounds e, (va / 4096 * 4096 + i * 4096, omega arith, omega arith, h))
        | inr (inl (s1, e, t, g)) ↦ inr (inl (s1, rw rounds e, t, g))
        | inr (inr (s1, e, m)) ↦
            inr (inr (s1, rw rounds e, IsRange-AreMapped d va size pa perm s s1 al f z l m))
      ]
