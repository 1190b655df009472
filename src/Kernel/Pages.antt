-- ===== src/Kernel/Pages.antt =====
-- kernel/kalloc.c: the list of free physical pages. A page is its address, and the bytes in it are not
-- modelled: the `next` pointer there is the order of the list, and the junk is never read.
pub mod Ownership
mod Tests
use base_system.Base.{
  ℕ, zero, suc, ◌+◌, ◌-◌, ◌*◌, ◌/◌, ◌%◌, ◌^◌, Bool, true, false, not, ◌&&◌, ◌||◌, Option, none,
  some, List, [], ◌∷◌, ◌==◌, ltb, leb, if◌then◌else◌,
}

abbrev pub pgsize : ℕ
pgsize = 4096

-- `PHYSTOP` and `KERNBASE`
abbrev pub phystop : ℕ
phystop = 0xE000000

abbrev pub kernbase : ℕ
kernbase = 0x80000000

-- `v2p`, an unsigned difference of 32 bits.
abbrev pub v2p : ℕ → ℕ
v2p v = (v + 2 ^ 32 - kernbase) % 2 ^ 32

-- `PGROUNDUP`
abbrev pub pg_round_up : ℕ → ℕ
pg_round_up a = (a + pgsize - 1) % 2 ^ 32 / pgsize * pgsize

-- `kmem`
pub record Kmem : Type 0 where
  pub use_lock : Bool
  pub freelist : List ℕ

-- The guard of `kfree`; `kernel_end` is the linker's `end`.
abbrev pub is_refused : ℕ → ℕ → Bool
is_refused kernel_end v = not (v % pgsize == 0) || ltb v kernel_end || leb phystop (v2p v)

-- `kfree`; `none` is the panic.
unfoldable pub kfree : ℕ → ℕ → Kmem → Option Kmem
kfree kernel_end v k =
    if is_refused kernel_end v then none else some (record k { freelist = v ∷ k.freelist })

-- `kalloc`
unfoldable pub kalloc : Kmem → Option ℕ × Kmem
kalloc k = elim k.freelist [ [] ↦ (none, k) | r ∷ rest ↦ (some r, record k { freelist = rest }) ]

-- How the loop of `freerange` ends: all pages freed, a panic, or out of the model's rounds.
pub data Freed : Type 0 where
  done : Kmem → Freed
  refused out_of_rounds : Freed

-- The loop of `freerange` from `p` on.
unfoldable pub free_from : ℕ → ℕ → ℕ → ℕ → Kmem → Freed
unfolding kfree
free_from kernel_end zero p vend k = out_of_rounds
free_from kernel_end (suc fuel) p vend k =
    let rest = free_from kernel_end fuel (p + pgsize) vend in
    if leb (p + pgsize) vend
    then elim (kfree kernel_end p k) [ none ↦ refused | some k1 ↦ rest k1 ]
    else done k

unfoldable pub freerange : ℕ → ℕ → ℕ → ℕ → Kmem → Freed
unfolding free_from
freerange kernel_end fuel vstart vend k = free_from kernel_end fuel (pg_round_up vstart) vend k

-- `kinit1` from the zeroed `kmem`, and `kinit2` later.
unfoldable pub kinit1 : ℕ → ℕ → ℕ → ℕ → Kmem → Freed
unfolding freerange
kinit1 kernel_end fuel vstart vend k =
    freerange kernel_end fuel vstart vend (record k { use_lock = false })

unfoldable pub kinit2 : ℕ → ℕ → ℕ → ℕ → Kmem → Freed
unfolding freerange
kinit2 kernel_end fuel vstart vend k = elim (freerange kernel_end fuel vstart vend k) [
  | done k1 ↦ done (record k1 { use_lock = true })
  | refused ↦ refused
  | out_of_rounds ↦ out_of_rounds
]
