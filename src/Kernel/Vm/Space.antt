-- ===== src/Kernel/Vm/Space.antt =====
-- kernel/vm.c: the memory of a process: its start, growth, copy and end, and the copying to user
-- addresses. `kernel_end` and `data_start` are as in Kernel/Vm.
use base_system.Base.{
  ℕ, zero, suc, ◌+◌, ◌-◌, ◌*◌, ◌/◌, ◌%◌, ◌^◌, Bool, true, false, not, ◌&&◌, Option, none, some,
  List, ◌==◌, leb, ltb, if◌then◌else◌, length, take, drop, min,
}
use base_system.Kernel.Action.{Action, panic, ◌>>=◌, ◌>>◌, pure, gets, modify, panic_if}
use base_system.Kernel.Text.{memmove}
use base_system.Kernel.Pages.{pgsize, kernbase, v2p, pg_round_up}
use base_system.Kernel.Fs.{uint_at, put_uint}
use base_system.Kernel.Fs.Content.{write_bytes}
use base_system.Kernel.Vm.{
  Vm, fill_page, is_present, is_user, kalloc_page, kfree_page, mappages, p2v, pg_round_down,
  pte_addr, pte_flags, pte_wu, setupkvm, walkpgdir,
}

-- `inituvm`. A null pointer of `kalloc` would be written through: a fault, as a panic.
unfoldable pub init_page : ℕ → List ℕ → Option ℕ → Action Vm (Unit {0})
init_page pgdir init none = λ s. (panic, s)
init_page pgdir init (some mem) = do
  modify (λ s. record s { memory = fill_page mem 0 s.memory })
  mappages pgdir 0 pgsize (v2p mem) pte_wu
  modify (λ s. record s { memory = write_bytes init mem s.memory })

unfoldable pub inituvm : ℕ → List ℕ → Action Vm (Unit {0})
inituvm pgdir init = do
  panic_if (leb pgsize (length init))
  mem ← kalloc_page
  init_page pgdir init mem

-- The body of the loop of `deallocuvm` at an entry.
unfoldable pub free_entry : ℕ → ℕ → Action Vm (Unit {0})
free_entry kernel_end pte = do
  e ← gets (λ s. uint_at s.memory pte)
  if is_present e
      then (do
        panic_if (pte_addr e == 0)
        kfree_page kernel_end (p2v (pte_addr e))
        modify (λ s. record s { memory = put_uint pte 0 s.memory }))
      else pure tt

-- The loop of `deallocuvm` from `a` on. A round moves `a` up by a page at least.
unfoldable pub dealloc_from : ℕ → ℕ → ℕ → ℕ → ℕ → Action Vm (Unit {0})
dealloc_from zero kernel_end pgdir oldsz a = pure tt
dealloc_from (suc k) kernel_end pgdir oldsz a =
    let rest = dealloc_from k kernel_end pgdir oldsz in
    if ltb a oldsz
    then (do
      pte ← walkpgdir pgdir a false
      elim pte [
        | none ↦ rest ((a + 1024 * pgsize) % 2 ^ 32)
        | some p ↦ (do free_entry kernel_end p; rest ((a + pgsize) % 2 ^ 32))
      ])
    else pure tt

unfoldable pub deallocuvm : ℕ → ℕ → ℕ → ℕ → Action Vm ℕ
deallocuvm kernel_end pgdir oldsz newsz = if leb oldsz newsz then pure oldsz else (do
  dealloc_from (oldsz / pgsize + 1) kernel_end pgdir oldsz (pg_round_up newsz)
  pure newsz)

-- The loop of `allocuvm` from `a` on: whether it came to its end. The result of `mappages` is not used.
unfoldable pub alloc_from : ℕ → ℕ → ℕ → ℕ → Action Vm Bool
alloc_from zero pgdir newsz a = pure true
alloc_from (suc k) pgdir newsz a =
    let rest = alloc_from k pgdir newsz (a + pgsize) in
    if ltb a newsz
    then (do
      mem ← kalloc_page
      elim mem [
        | none ↦ pure false
        | some p ↦ (do
          modify (λ s. record s { memory = fill_page p 0 s.memory })
          mappages pgdir a pgsize (v2p p) pte_wu
          rest)
      ])
    else pure true

unfoldable pub allocuvm : ℕ → ℕ → ℕ → ℕ → Action Vm ℕ
allocuvm kernel_end pgdir oldsz newsz =
    if leb kernbase newsz then pure 0 else if ltb newsz oldsz then pure oldsz else (do
      all ← alloc_from (newsz / pgsize + 1) pgdir newsz (pg_round_up oldsz)
      if all then pure newsz else (do deallocuvm kernel_end pgdir newsz oldsz; pure 0))

-- The loop of `freevm` over the directory, with `k` entries left.
unfoldable pub free_tables : ℕ → ℕ → ℕ → ℕ → Action Vm (Unit {0})
free_tables zero kernel_end pgdir i = pure tt
free_tables (suc k) kernel_end pgdir i = do
  pde ← gets (λ s. uint_at s.memory (pgdir + i * 4))
  if is_present pde then kfree_page kernel_end (p2v (pte_addr pde)) else pure tt
  free_tables k kernel_end pgdir (i + 1)

unfoldable pub freevm : ℕ → ℕ → Action Vm (Unit {0})
freevm kernel_end pgdir = do
  panic_if (pgdir == 0)
  deallocuvm kernel_end pgdir kernbase 0
  free_tables 1024 kernel_end pgdir 0
  kfree_page kernel_end pgdir

-- `clearpteu`
unfoldable pub clear_user : Option ℕ → Action Vm (Unit {0})
clear_user none = λ s. (panic, s)
clear_user (some pte) = do
  e ← gets (λ s. uint_at s.memory pte)
  modify (λ s. record s { memory = put_uint pte (e - e / 4 % 2 * 4) s.memory })

unfoldable pub clearpteu : ℕ → ℕ → Action Vm (Unit {0})
clearpteu pgdir uva = walkpgdir pgdir uva false >>= clear_user

-- `copyuvm`: a page of the loop, from the entry `pte` to the address `i` of the directory `d`. False
-- is `goto bad`.
unfoldable pub copy_page : ℕ → ℕ → Option ℕ → Action Vm Bool
copy_page d i none = λ s. (panic, s)
copy_page d i (some pte) = do
  e ← gets (λ s. uint_at s.memory pte)
  panic_if (not (is_present e))
  mem ← kalloc_page
  elim mem [
    | none ↦ pure false
    | some p ↦ (do
      modify (λ s. record s { memory = memmove p (p2v (pte_addr e)) pgsize s.memory })
      mappages d i pgsize (v2p p) (pte_flags e))
  ]

unfoldable pub copy_pages : ℕ → ℕ → ℕ → ℕ → ℕ → Action Vm Bool
copy_pages zero pgdir d sz i = pure true
copy_pages (suc k) pgdir d sz i =
    let rest = copy_pages k pgdir d sz (i + pgsize) in
    if ltb i sz
    then (do
      pte ← walkpgdir pgdir i false
      copied ← copy_page d i pte
      if copied then rest else pure false)
    else pure true

unfoldable pub copy_into : ℕ → ℕ → ℕ → Option ℕ → Action Vm (Option ℕ)
copy_into kernel_end pgdir sz none = pure none
copy_into kernel_end pgdir sz (some d) = do
  all ← copy_pages (sz / pgsize + 1) pgdir d sz 0
  if all then pure (some d) else (do freevm kernel_end d; pure none)

unfoldable pub copyuvm : ℕ → ℕ → ℕ → ℕ → Action Vm (Option ℕ)
copyuvm kernel_end data_start pgdir sz = setupkvm data_start >>= copy_into kernel_end pgdir sz

-- `uva2ka`. Without a page table it reads through the null pointer: `at_null` is the word at address 0
-- of the current address space, none if there is none, which is a fault, as a panic.
unfoldable pub user_entry : ℕ → Option ℕ
user_entry e = if is_present e && is_user e then some (p2v (pte_addr e)) else none

unfoldable pub user_page : Option ℕ → Option ℕ → Action Vm (Option ℕ)
user_page none none = λ s. (panic, s)
user_page (some word) none = pure (user_entry word)
user_page at_null (some pte) = do e ← gets (λ s. uint_at s.memory pte); pure (user_entry e)

unfoldable pub uva2ka : Option ℕ → ℕ → ℕ → Action Vm (Option ℕ)
uva2ka at_null pgdir uva = walkpgdir pgdir uva false >>= user_page at_null

-- `copyout` of the bytes `buf`: false is the result -1. A round copies a byte at least.
unfoldable pub copy_out : Option ℕ → ℕ → ℕ → ℕ → List ℕ → Action Vm Bool
copy_out at_null zero pgdir va buf = pure true
copy_out at_null (suc k) pgdir va buf =
    let va0 = pg_round_down va in
    let n = min (pgsize - (va - va0)) (length buf) in
    let rest = copy_out at_null k pgdir ((va0 + pgsize) % 2 ^ 32) (drop n buf) in
    if length buf == 0 then pure true else (do
      pa0 ← uva2ka at_null pgdir va0
      elim pa0 [
        | none ↦ pure false
        | some p ↦ (do
          modify (λ s. record s { memory = write_bytes (take n buf) (p + (va - va0)) s.memory })
          rest)
      ])

unfoldable pub copyout : Option ℕ → ℕ → ℕ → List ℕ → Action Vm Bool
copyout at_null pgdir va buf = copy_out at_null (length buf) pgdir va buf
