-- ===== src/Kernel/Pages/Ownership.antt =====
-- Who has the pages of kernel/kalloc.c: the free list, and those who got them from `kalloc`.
use base_system.Base.{
  ℕ, zero, suc, ◌+◌, ◌*◌, ◌%◌, ◌^◌, ◌≤◌, ◌<◌, ◌≡◌, refl, inl, inr, Bool, false, ◌&&◌, some, List,
  [], ◌∷◌, arith, ◌==◌, leb, if◌then◌else◌, Bool-cases,
}
use base_system.Kernel.Pages.{
  Kmem, is_refused, kfree, kalloc, done, free_from, pgsize, phystop, kernbase, pg_round_up, kinit1,
}

-- How often a page is in a list.
unfoldable pub count : ℕ → List ℕ → ℕ
count v [] = 0
count v (w ∷ ws) = let rest = count v ws in if v == w then suc rest else rest

-- A list without one occurrence of a page.
unfoldable pub remove : ℕ → List ℕ → List ℕ
remove v [] = []
remove v (w ∷ ws) = let rest = remove v ws in if v == w then ws else w ∷ rest

pub count-remove :
    (v w : ℕ) (ws : List ℕ)
    → 1 ≤ count w ws
    → count v (remove w ws) + (if v == w then 1 else 0) ≡ count v ws
unfolding count remove
count-remove v w [] h = absurd (omega arith)
count-remove v w (x ∷ ws) h = ground (arith, count-remove v w ws)

-- The free list, and the pages that users hold.
pub record Pool : Type 0 where
  pub kmem : Kmem
  pub held : List ℕ

-- A page is given out, or freed by one who holds it.
pub data Step (kernel_end : ℕ) (p q : Pool) : Type 0 where
  allocates :
      (v : ℕ)
      → (kalloc p.kmem).0 ≡ some v
      → q ≡ record { kmem = (kalloc p.kmem).1; held = v ∷ p.held }
      → Step kernel_end p q
  frees :
      (v : ℕ) (k : Kmem)
      → 1 ≤ count v p.held
      → kfree kernel_end v p.kmem ≡ some k
      → q ≡ record { kmem = k; held = remove v p.held }
      → Step kernel_end p q

pub data Reach (kernel_end : ℕ) (p : Pool) : Pool → Type 0 where
  here : Reach kernel_end p p
  next : {q r : Pool} → Reach kernel_end p q → Step kernel_end q r → Reach kernel_end p r

-- Every page is free or held once at most, and every page that there is passes the guard of `kfree`.
pub record IsSound (kernel_end : ℕ) (p : Pool) : Type 0 where
  pub once : (v : ℕ) → count v p.kmem.freelist + count v p.held ≤ 1
  pub accepted :
      (v : ℕ) → 1 ≤ count v p.kmem.freelist + count v p.held → is_refused kernel_end v ≡ false

kalloc-count :
    (k : Kmem) (v w : ℕ)
    → (kalloc k).0 ≡ some v
    → count w (kalloc k).1.freelist + (if w == v then 1 else 0) ≡ count w k.freelist
unfolding kalloc count
kalloc-count k v w e = ground arith

IsSound-total :
    (kernel_end : ℕ) (p q : Pool)
    → ((w : ℕ)
        → count w q.kmem.freelist + count w q.held ≡ count w p.kmem.freelist + count w p.held)
    → IsSound kernel_end p
    → IsSound kernel_end q
IsSound-total kernel_end p q t h = record {
  once = λ w. omega (arith, t w, h.once w);
  accepted = λ w m. h.accepted w (omega (arith, t w));
}

Step-IsSound :
    (kernel_end : ℕ) (p q : Pool)
    → Step kernel_end p q
    → IsSound kernel_end p
    → IsSound kernel_end q
Step-IsSound kernel_end p q (allocates v e eq) h =
    IsSound-total kernel_end p q
      (λ w. rw eq (let c = kalloc-count p.kmem v w e in unfold count in ground arith)) h
Step-IsSound kernel_end p q (frees v k m e eq) h =
    IsSound-total kernel_end p q
      (λ w. rw eq (let c = count-remove w v p.held m in unfold count kfree in ground arith)) h

-- From a sound pool, in which each page of the kernel is at most once free or in a hand, whatever is
-- allocated and freed by its holders leaves a sound pool: no page is ever in two hands, or free and in
-- use.
pub Reach-IsSound :
    {kernel_end : ℕ} {p q : Pool}
    → Reach kernel_end p q
    → IsSound kernel_end p
    → IsSound kernel_end q
Reach-IsSound here h = h
Reach-IsSound {kernel_end} (next {q} {r} rs st) h =
    Step-IsSound kernel_end q r st (Reach-IsSound rs h)

-- One who holds a page can free it: `kfree` does not panic.
pub kfree-IsSound :
    (kernel_end v : ℕ) (p : Pool)
    → IsSound kernel_end p
    → 1 ≤ count v p.held
    → kfree kernel_end v p.kmem ≡ some (record p.kmem { freelist = v ∷ p.kmem.freelist })
unfolding kfree
kfree-IsSound kernel_end v p s h = rw (s.accepted v (omega arith)) refl

-- The aligned pages from `p` on that end at `vend` at the latest.
abbrev pub in_range : ℕ → ℕ → ℕ → Bool
in_range p vend v = leb p v && leb (v + pgsize) vend && v % pgsize == 0

free_from_lem :
    (kernel_end fuel p vend : ℕ) (k : Kmem)
    → p % pgsize ≡ 0
    → kernel_end ≤ p
    → kernbase ≤ p
    → vend ≤ kernbase + phystop
    → 1 ≤ fuel
    → vend < p + fuel * pgsize
    → (k' : Kmem) × (free_from kernel_end fuel p vend k ≡ done k')
      × ((v : ℕ) → count v k'.freelist ≡ count v k.freelist + (if in_range p vend v then 1 else 0))
unfolding free_from kfree count
free_from_lem kernel_end zero p vend k al e b t f h = absurd (omega arith)
free_from_lem kernel_end (suc fuel) p vend k al e b t f h =
    elim (Bool-cases (leb (p + pgsize) vend)) [
      | inl more ↦
          let fine : is_refused kernel_end p ≡ false = ground arith in
          let (k', eq, c) =
            free_from_lem kernel_end fuel (p + pgsize) vend (record k { freelist = p ∷ k.freelist })
              (omega arith) (omega arith) (omega arith) t (ground arith) (omega arith) in
          (k', rw (more, fine) eq, λ v. ground (arith, c v))
      | inr end ↦ (k, rw end refl, λ v. ground arith)
    ]

-- `kinit1` on kernel memory behind the kernel's end and below `PHYSTOP`, with a round for every page
-- and one more: it returns, without a panic; it freed exactly the whole pages between the two
-- addresses, each once; and what it leaves is sound, with nothing held yet.
pub kinit1_lem :
    (kernel_end fuel vstart vend : ℕ) (lock : Bool) (v : ℕ)
    → kernel_end ≤ vstart
    → kernbase ≤ vstart
    → vstart + pgsize < 2 ^ 32
    → vend ≤ kernbase + phystop
    → 1 ≤ fuel
    → vend < vstart + fuel * pgsize
    → (k' : Kmem) × (kinit1 kernel_end fuel vstart vend (record { use_lock = lock; freelist = [] })
        ≡ done k')
      × (count v k'.freelist ≡ (if in_range (pg_round_up vstart) vend v then 1 else 0))
      × IsSound kernel_end (record { kmem = k'; held = [] })
unfolding kinit1 count
kinit1_lem kernel_end fuel vstart vend lock v e b o t f h =
    let (k', eq, c) =
      free_from_lem kernel_end fuel (pg_round_up vstart) vend
        (record { use_lock = false; freelist = [] }) (omega arith) (omega arith) (omega arith) t f
        (omega arith) in
    (
      k',
      eq,
      ground (arith, c v),
      record { once = λ w. ground (arith, c w); accepted = λ w m. ground (arith, c w) },
    )
