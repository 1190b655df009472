-- ===== src/Kernel/Vm.antt =====
-- kernel/vm.c: page tables. A pointer of the kernel is its virtual address, and the memory is the function
-- from these addresses to bytes. `kernel_end` and `data_start` are the linker's `end` and `data`.
pub mod Space
pub mod Words
pub mod Tree
pub mod Fresh
pub mod Entries
pub mod Mapping
pub mod Taken
pub mod Growth
mod Tests
use Prim.Native.Nat.{bit_or}
use base_system.Base.{
  ℕ, zero, suc, ◌+◌, ◌-◌, ◌*◌, ◌/◌, ◌%◌, ◌^◌, Bool, true, false, not, ◌&&◌, ◌||◌, Option, none,
  some, List, [], ◌∷◌, ◌==◌, leb, ltb, if◌then◌else◌, length, take, drop, min,
}
use base_system.Kernel.Action.{Action, ok, panic, ◌>>=◌, ◌>>◌, pure, gets, modify, panic_if}
use base_system.Kernel.Text.{Memory, memmove}
use base_system.Kernel.Pages.{pgsize, phystop, kernbase, v2p, pg_round_up, Kmem, is_refused, kalloc}
use base_system.Kernel.Fs.{uint_at, put_uint}
use base_system.Kernel.Fs.Content.{write_bytes}

-- The allocator and the memory.
pub record Vm : Type 0 where
  pub kmem : Kmem
  pub memory : Memory

-- `p2v`, `PGROUNDDOWN`, `PDX` and `PTX`
abbrev pub p2v : ℕ → ℕ
p2v a = (a + kernbase) % 2 ^ 32

abbrev pub pg_round_down : ℕ → ℕ
pg_round_down a = a / pgsize * pgsize

abbrev pub pdx : ℕ → ℕ
pdx va = va / 2 ^ 22 % 1024

abbrev pub ptx : ℕ → ℕ
ptx va = va / 2 ^ 12 % 1024

-- `PTE_ADDR`, `PTE_FLAGS`, and the tests of `PTE_P` and `PTE_U`
abbrev pub pte_addr : ℕ → ℕ
pte_addr pte = pte / 4096 * 4096

abbrev pub pte_flags : ℕ → ℕ
pte_flags pte = pte % 4096

abbrev pub is_present : ℕ → Bool
is_present pte = pte % 2 == 1

abbrev pub is_user : ℕ → Bool
is_user pte = pte / 4 % 2 == 1

-- `memset(v, byte, PGSIZE)`
abbrev pub fill_page : ℕ → ℕ → Memory → Memory
fill_page v byte m i = if leb v i && ltb i (v + pgsize) then byte else m i

-- `kalloc`; none is the null pointer. What `kalloc` leaves in a page is never read: each caller fills it.
abbrev pub kalloc_page : Action Vm (Option ℕ)
kalloc_page s = (ok (kalloc s.kmem).0, record s { kmem = (kalloc s.kmem).1 })

-- `kfree`, which fills the page with ones.
unfoldable pub kfree_page : ℕ → ℕ → Action Vm (Unit {0})
kfree_page kernel_end v = do
  panic_if (is_refused kernel_end v)
  modify (λ s. record s {
    kmem = record (s.kmem) { freelist = v ∷ s.kmem.freelist };
    memory = fill_page v 1 s.memory;
  })

-- `pa | perm | PTE_P`
abbrev pub entry_for : ℕ → ℕ → ℕ
entry_for pa perm = bit_or (bit_or pa perm) 1

-- `PTE_W|PTE_U`
abbrev pub pte_wu : ℕ
pte_wu = 6

-- `walkpgdir` where it makes a page table.
unfoldable pub new_table : ℕ → ℕ → Option ℕ → Action Vm (Option ℕ)
new_table pde va none = pure none
new_table pde va (some pgtab) = do
  modify (λ s. record s {
    memory = put_uint pde (entry_for (v2p pgtab) pte_wu) (fill_page pgtab 0 s.memory);
  })
  pure (some (pgtab + ptx va * 4))

-- `walkpgdir`: the address of the entry.
unfoldable pub walkpgdir : ℕ → ℕ → Bool → Action Vm (Option ℕ)
walkpgdir pgdir va alloc = do
  pde ← gets (λ s. uint_at s.memory (pgdir + pdx va * 4))
  if is_present pde
      then pure (some (p2v (pte_addr pde) + ptx va * 4))
      else if alloc
      then (do pgtab ← kalloc_page; new_table (pgdir + pdx va * 4) va pgtab)
      else pure none

-- The body of the loop of `mappages` at its entry: whether there is one.
unfoldable pub set_entry : ℕ → ℕ → Option ℕ → Action Vm Bool
set_entry pa perm none = pure false
set_entry pa perm (some pte) = do
  old ← gets (λ s. uint_at s.memory pte)
  panic_if (is_present old)
  modify (λ s. record s { memory = put_uint pte (entry_for pa perm) s.memory })
  pure true

unfoldable pub map_page : ℕ → ℕ → ℕ → ℕ → Action Vm Bool
map_page pgdir a pa perm = walkpgdir pgdir a true >>= set_entry pa perm

-- The loop of `mappages` with `k` rounds behind this one: false is the result -1.
unfoldable pub map_from : ℕ → ℕ → ℕ → ℕ → ℕ → Action Vm Bool
map_from zero pgdir a pa perm = map_page pgdir a pa perm
map_from (suc k) pgdir a pa perm =
    let rest = map_from k pgdir ((a + pgsize) % 2 ^ 32) ((pa + pgsize) % 2 ^ 32) perm in
    do mapped ← map_page pgdir a pa perm; if mapped then rest else pure false

-- The rounds go from the first page to the last, over the end of the addresses if that comes first.
unfoldable pub mappages : ℕ → ℕ → ℕ → ℕ → ℕ → Action Vm Bool
mappages pgdir va size pa perm =
    let a = pg_round_down va in
    let last = pg_round_down ((va + size + 2 ^ 32 - 1) % 2 ^ 32) in
    map_from ((last + 2 ^ 32 - a) % 2 ^ 32 / pgsize) pgdir a pa perm

-- A line of `kmap`.
pub record Kmap : Type 0 where
  pub virt : ℕ
  pub phys_start : ℕ
  pub phys_end : ℕ
  pub perm : ℕ

abbrev pub extmem : ℕ
extmem = 0x100000

abbrev pub devspace : ℕ
devspace = 0xFE000000

unfoldable pub kmap : ℕ → List Kmap
kmap data_start =
    record { virt = kernbase; phys_start = 0; phys_end = extmem; perm = 2 }
    ∷ record { virt = kernbase + extmem; phys_start = extmem; phys_end = v2p data_start; perm = 0 }
    ∷ record { virt = data_start; phys_start = v2p data_start; phys_end = phystop; perm = 2 }
    ∷ record { virt = devspace; phys_start = devspace; phys_end = 0; perm = 2 }
    ∷ []

-- The loop of `setupkvm` over the lines.
unfoldable pub map_kernel : ℕ → List Kmap → Action Vm (Option ℕ)
map_kernel pgdir [] = pure (some pgdir)
map_kernel pgdir (k ∷ ks) = do
  mapped ← mappages pgdir k.virt ((k.phys_end + 2 ^ 32 - k.phys_start) % 2 ^ 32) k.phys_start k.perm
  if mapped then map_kernel pgdir ks else pure none

-- `setupkvm`; `p2v(PHYSTOP)` is not above `DEVSPACE`.
unfoldable pub fill_directory : ℕ → Option ℕ → Action Vm (Option ℕ)
fill_directory data_start none = pure none
fill_directory data_start (some pgdir) = do
  modify (λ s. record s { memory = fill_page pgdir 0 s.memory })
  panic_if (ltb devspace (p2v phystop))
  map_kernel pgdir (kmap data_start)

unfoldable pub setupkvm : ℕ → Action Vm (Option ℕ)
setupkvm data_start = kalloc_page >>= fill_directory data_start
