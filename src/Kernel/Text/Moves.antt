-- ===== src/Kernel/Text/Moves.antt =====
-- `memmove` of kernel/string.c on regions that may overlap.
use native.Mathlib.Decide.{ℕ_discrete}
use base_system.Base.{
  ℕ, zero, suc, ◌+◌, ◌-◌, ◌<◌, ◌≡◌, ap, ◌∙◌, false, ◌&&◌, arith, ltb, leb, if◌then◌else◌,
  Bool-cases, inl, inr,
}
use base_system.Kernel.Text.{Memory, store, copy_up, copy_down, memmove}

-- The memory `m` with the `n` bytes from `s` on also at `d`.
abbrev pub moved : ℕ → ℕ → ℕ → Memory → Memory
moved d s n m i = if leb d i && ltb i (d + n) then m (s + i - d) else m i

copy_up_lem :
    (d s n : ℕ) (m : Memory) (i : ℕ)
    → ((ltb s d && ltb d (s + n)) ≡ false)
    → copy_up d s n m i ≡ moved d s n m i
unfolding copy_up
copy_up_lem d s zero m i h = ground arith
copy_up_lem d s (suc n) m i h =
    let ih = copy_up_lem (d + 1) (s + 1) n (store d (m s) m) i (ground arith) in
    let shift : s + 1 + i - (d + 1) ≡ s + i - d = omega arith in
    ih ∙ elim (ℕ_discrete i d) [
      | yes e ↦ rw e (let same : s + d - d ≡ s = omega arith in ground (arith, ap m same))
      | no ne ↦ ground (arith, ap m shift)
    ]

copy_down_lem :
    (d s n : ℕ) (m : Memory) (i : ℕ) → s < d → copy_down (d + n) (s + n) n m i ≡ moved d s n m i
unfolding copy_down
copy_down_lem d s zero m i h = ground arith
copy_down_lem d s (suc n) m i h =
    let e : d + suc n - 1 ≡ d + n = omega arith in
    let f : s + suc n - 1 ≡ s + n = omega arith in
    let ih = copy_down_lem d s n (store (d + n) (m (s + n)) m) i h in
    rw (e, f)
      (ih ∙ elim (ℕ_discrete i (d + n)) [
        | yes eq ↦
            rw eq (let same : s + (d + n) - d ≡ s + n = omega arith in ground (arith, ap m same))
        | no ne ↦ ground arith
      ])

-- After `memmove` each of the `n` bytes at `d` is what the byte at its place behind `s` was before, also
-- where the regions overlap, and all other bytes are unchanged.
pub memmove_lem : (d s n : ℕ) (m : Memory) (i : ℕ) → memmove d s n m i ≡ moved d s n m i
unfolding memmove
memmove_lem d s n m i = elim (Bool-cases (ltb s d && ltb d (s + n))) [
  | inl e ↦ rw e (copy_down_lem d s n m i (ground arith))
  | inr e ↦ rw e (copy_up_lem d s n m i e)
]
