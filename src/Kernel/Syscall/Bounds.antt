-- ===== src/Kernel/Syscall/Bounds.antt =====
-- What the checks of kernel/syscall.c let pass.
use native.Mathlib.Decide.{ℕ_discrete}
use base_system.Base.{
  ℕ, zero, suc, ◌+◌, ◌-◌, ◌^◌, ◌≤◌, ◌<◌, ◌≡◌, ◌≢◌, ◌↔◌, ◌⊎◌, refl, sym, ap, ◌∙◌, false, ◌||◌,
  Option, none, some, arith, ◌==◌, leb, ltb, if◌then◌else◌, Bool-cases, inl, inr,
}
use base_system.Kernel.Text.{Memory}
use base_system.Kernel.Syscall.{User, wrap, find_end, fetchstr, argint, argptr}

-- What `argptr` answers for a pointer argument `i`.
argptr_of :
    (u : User) (n size i : ℕ)
    → argint u n ≡ some i
    → argptr u n size ≡ (if leb u.sz i || ltb u.sz (wrap (i + size)) then none else some i)
unfolding argptr
argptr_of u n size i h = rw (h, argptr) refl

-- For a process whose size leaves the sum with the size of the block below 2^32: `argptr` accepts a
-- pointer argument `i` exactly if `i` and all the bytes of the block are in the memory of the process.
pub argptr_iff :
    (u : User) (n size i : ℕ)
    → argint u n ≡ some i
    → u.sz + size < 2 ^ 32
    → (argptr u n size ≡ some i) ↔ ((i < u.sz) × (i + size ≤ u.sz))
argptr_iff u n size i h small =
    let e = argptr_of u n size i h in rw e (λ p. ground arith, λ p. ground arith)

-- For a size of the block that is negative as an `int`, -`k`, with `k` at most the pointer argument `i`:
-- `argptr` accepts every `i` below the size of the process.
pub argptr_negative :
    (u : User) (n i k : ℕ)
    → argint u n ≡ some i
    → u.sz < 2 ^ 31
    → i < u.sz
    → 1 ≤ k
    → k ≤ i
    → argptr u n (2 ^ 32 - k) ≡ some i
argptr_negative u n i k h small below pos_k most =
    let e = argptr_of u n (2 ^ 32 - k) i h in
    let b : (leb u.sz i || ltb u.sz (wrap (i + (2 ^ 32 - k)))) ≡ false = ground arith in
    rw e (rw b refl)

-- Where the string at an address ends, if it does before the end of the `k` bytes.
abbrev pub IsEnd : ℕ → Memory → ℕ → Option ℕ → Type 0
IsEnd k m s none = (i : ℕ) → i < k → m (s + i) ≢ 0
IsEnd k m s (some len) = (len < k) × (m (s + len) ≡ 0) × ((i : ℕ) → i < len → m (s + i) ≢ 0)

-- The length found is that behind `n` characters.
Ends : ℕ → Memory → ℕ → ℕ → Option ℕ → Type 0
Ends k m s n none = IsEnd k m s none
Ends k m s n (some r) = (len : ℕ) × (r ≡ n + len) × IsEnd k m s (some len)

not_zero_cons :
    (m : Memory) (s i : ℕ)
    → m s ≢ 0
    → (i ≡ 0 → ⊥) ⊎ (i ≡ 0)
    → (i ≢ 0 → m (s + 1 + (i - 1)) ≢ 0)
    → m (s + i) ≢ 0
not_zero_cons m s i h c later = elim c [
  | inl ne ↦ let e : s + 1 + (i - 1) ≡ s + i = omega (arith, ne) in λ z. later ne (ap m e ∙ z)
  | inr e ↦ let at : s + i ≡ s = omega arith in λ z. h (ap m (sym at) ∙ z)
]

Ends-later :
    (k : ℕ) (m : Memory) (s n : ℕ) (r : Option ℕ)
    → m s ≢ 0
    → Ends k m (s + 1) (n + 1) r
    → Ends (suc k) m s n r
unfolding Ends
Ends-later k m s n none h w = λ i l. elim (ℕ_discrete i 0) [
  | yes e ↦ not_zero_cons m s i h (inr e) (λ ne. absurd (ne e))
  | no ne ↦ not_zero_cons m s i h (inl ne) (λ _. w (i - 1) (omega arith))
]
Ends-later k m s n (some r) h (len, e, (l, z, w)) =
    let at : s + suc len ≡ s + 1 + len = omega arith in
    (
      suc len,
      omega arith,
      (
        omega arith,
        ap m at ∙ z,
        λ i lt. elim (ℕ_discrete i 0) [
          | yes q ↦ not_zero_cons m s i h (inr q) (λ ne. absurd (ne q))
          | no ne ↦ not_zero_cons m s i h (inl ne) (λ _. w (i - 1) (omega arith))
        ],
      ),
    )

find_end_lem : (k : ℕ) (m : Memory) (s n : ℕ) → Ends k m s n (find_end k m s n)
unfolding Ends find_end
find_end_lem zero m s n = λ i l. absurd (omega arith)
find_end_lem (suc k) m s n = elim (Bool-cases (m s == 0)) [
  | inl e ↦ rw e (
    0,
    omega arith,
    (
      omega arith,
      (let at : s + 0 ≡ s = omega arith in ap m at ∙ ground arith),
      λ i l. absurd (omega arith),
    ),
  )
  | inr e ↦ rw e (
      Ends-later k m s n (find_end k m (s + 1) (n + 1)) (ground arith)
        (find_end_lem k m (s + 1) (n + 1)))
]

IsEnd-from_start : (k : ℕ) (m : Memory) (s : ℕ) (r : Option ℕ) → Ends k m s 0 r → IsEnd k m s r
unfolding Ends
IsEnd-from_start k m s none h = h
IsEnd-from_start k m s (some r) (len, e, h) = let at : len ≡ r = omega arith in rw at at h

-- `fetchstr` answers the length of the string at an address if that ends in the memory of the process:
-- the first zero from the address on is that far behind it. Otherwise it answers -1, and no byte from
-- the address to the end of the memory is zero.
pub fetchstr_lem : (u : User) (addr : ℕ) → IsEnd (u.sz - addr) u.memory addr (fetchstr u addr)
unfolding fetchstr
fetchstr_lem u addr = elim (Bool-cases (leb u.sz addr)) [
  | inl e ↦ rw e (λ i l. absurd (ground arith))
  | inr e ↦
      rw e (
        IsEnd-from_start (u.sz - addr) u.memory addr _ (find_end_lem (u.sz - addr) u.memory addr 0))
]
