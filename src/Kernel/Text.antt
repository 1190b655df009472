-- ===== src/Kernel/Text.antt =====
-- kernel/string.c: moving and comparing memory and strings. Memory is a function from addresses to
-- bytes below 256, and a pointer is an address.
pub mod Moves
pub mod Strings
mod Tests
use base_system.Base.{
  ℕ, zero, suc, ◌+◌, ◌-◌, Bool, true, false, ◌&&◌, Option, none, some, ◌==◌, ltb, leb,
  if◌then◌else◌, ℤ, pos, negsuc,
}

abbrev pub Memory : Type 0
Memory = ℕ → ℕ

-- `*p = v`
abbrev pub store : ℕ → ℕ → Memory → Memory
store p v m i = if i == p then v else m i

-- `while(n-- > 0) *d++ = *s++`
unfoldable pub copy_up : ℕ → ℕ → ℕ → Memory → Memory
copy_up d s zero m = m
copy_up d s (suc n) m = copy_up (d + 1) (s + 1) n (store d (m s) m)

-- `while(n-- > 0) *--d = *--s`
unfoldable pub copy_down : ℕ → ℕ → ℕ → Memory → Memory
copy_down d s zero m = m
copy_down d s (suc n) m = copy_down (d - 1) (s - 1) n (store (d - 1) (m (s - 1)) m)

-- `memmove`; `memcpy` is the same.
unfoldable pub memmove : ℕ → ℕ → ℕ → Memory → Memory
unfolding copy_up copy_down
memmove d s n m =
    if ltb s d && ltb d (s + n) then copy_down (d + n) (s + n) n m else copy_up d s n m

-- The difference of two bytes, as an int.
abbrev pub difference : ℕ → ℕ → ℤ
difference a b = if leb b a then pos (a - b) else negsuc (b - a - 1)

-- `strncmp`
unfoldable pub strncmp : Memory → ℕ → ℕ → ℕ → ℤ
strncmp m p q zero = pos 0
strncmp m p q (suc n) =
    let rest = strncmp m (p + 1) (q + 1) n in
    if m p == 0 then difference (m p) (m q) else if m p == m q then rest else difference (m p) (m q)

-- `while(n-- > 0) *s++ = 0`
unfoldable pub fill_zero : ℕ → ℕ → Memory → Memory
fill_zero s zero m = m
fill_zero s (suc n) m = fill_zero (s + 1) n (store s 0 m)

-- `strncpy`: the copying loop, and the filling loop once it has met the zero.
unfoldable pub strncpy : ℕ → ℕ → ℕ → Memory → Memory
unfolding fill_zero
strncpy s t zero m = m
strncpy s t (suc n) m =
    let m1 = store s (m t) m in
    let filled = fill_zero (s + 1) n m1 in
    let rest = strncpy (s + 1) (t + 1) n m1 in if m t == 0 then filled else rest

-- The loop of `safestrcpy` with `n` of its bytes left, and `*s = 0`.
unfoldable pub safestrcpy_from : ℕ → ℕ → ℕ → Memory → Memory
safestrcpy_from s t zero m = store s 0 m
safestrcpy_from s t (suc n) m =
    let m1 = store s (m t) m in
    let rest = safestrcpy_from (s + 1) (t + 1) n m1 in if m t == 0 then store (s + 1) 0 m1 else rest

unfoldable pub safestrcpy : ℕ → ℕ → ℕ → Memory → Memory
unfolding safestrcpy_from
safestrcpy s t zero m = m
safestrcpy s t (suc n) m = safestrcpy_from s t n m
