-- ===== src/Kernel/Syscall.antt =====
-- kernel/syscall.c: the arguments of a system call, from the memory of the process. An address and an
-- `int` are their 32 bits. The memory is a function from addresses to bytes.
pub mod Bounds
mod Tests
use base_system.Base.{
  ℕ, zero, suc, ◌+◌, ◌-◌, ◌*◌, ◌%◌, ◌^◌, Bool, true, false, ◌||◌, Option, none, some, ◌==◌, leb,
  ltb, if◌then◌else◌,
}
use base_system.Kernel.Text.{Memory}
use base_system.Kernel.Fs.{uint_at}

-- What is read of `proc`: its size, its memory and the stack pointer in its trap frame.
pub record User : Type 0 where
  pub sz : ℕ
  pub memory : Memory
  pub esp : ℕ

-- Sums of a `uint`.
abbrev pub wrap : ℕ → ℕ
wrap a = a % 2 ^ 32

-- `fetchint`; none is the result -1.
unfoldable pub fetchint : User → ℕ → Option ℕ
fetchint u addr =
    if leb u.sz addr || ltb u.sz (wrap (addr + 4)) then none else some (uint_at u.memory addr)

-- The loop of `fetchstr`, with `k` addresses left and the length `n` so far.
unfoldable pub find_end : ℕ → Memory → ℕ → ℕ → Option ℕ
find_end zero m s n = none
find_end (suc k) m s n =
    let rest = find_end k m (s + 1) (n + 1) in if m s == 0 then some n else rest

-- `fetchstr`: the pointer is the address, the result the length.
unfoldable pub fetchstr : User → ℕ → Option ℕ
fetchstr u addr = if leb u.sz addr then none else find_end (u.sz - addr) u.memory addr 0

unfoldable pub argint : User → ℕ → Option ℕ
argint u n = fetchint u (wrap (u.esp + 4 + 4 * n))

-- `argptr` for a block of `size` bytes, an `int`.
unfoldable pub argptr : User → ℕ → ℕ → Option ℕ
argptr u n size = elim (argint u n) [
  | none ↦ none
  | some i ↦ if leb u.sz i || ltb u.sz (wrap (i + size)) then none else some i
]

-- `argstr`: the pointer and the length.
unfoldable pub argstr : User → ℕ → Option (ℕ × ℕ)
argstr u n = elim (argint u n) [
  | none ↦ none
  | some addr ↦ (elim (fetchstr u addr) [ none ↦ none | some len ↦ some (addr, len) ])
]
