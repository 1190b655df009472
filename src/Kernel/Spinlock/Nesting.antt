-- ===== src/Kernel/Spinlock/Nesting.antt =====
-- Calls of `pushcli` and `popcli` of kernel/spinlock.c inside one another.
use base_system.Base.{
  ℕ, zero, suc, ◌≡◌, refl, ◌∙◌, false, not, ◌&&◌, Option, none, some, arith, ◌==◌, if◌then◌else◌,
  Bool-cases, inl, inr,
}
use base_system.Kernel.Spinlock.{Cpu, pushcli, popcli}

-- `n` calls of `pushcli`, and `n` calls of `popcli`.
unfoldable pub pushes : ℕ → Cpu → Cpu
pushes zero c = c
pushes (suc n) c = pushes n (pushcli c)

unfoldable pub pops : ℕ → Cpu → Option Cpu
pops zero c = some c
pops (suc n) c = elim (pops n c) [ none ↦ none | some d ↦ popcli d ]

pops_last : (n : ℕ) (c d : Cpu) → pops n c ≡ some d → pops (suc n) c ≡ popcli d
unfolding pops popcli
pops_last n c d e = rw (pops, e) refl

-- Interrupts that are on mean that no `pushcli` is open.
abbrev pub IsNested : Cpu → Type 0
IsNested c = (c.interrupts && not (c.ncli == 0)) ≡ false

-- The CPU `c` again, from a CPU `d` that is as `c` after a `pushcli`.
abbrev restored : Cpu → Cpu → Cpu
restored c d = record d { ncli = c.ncli; interrupts = c.interrupts }

popcli-pushcli :
    (c d : Cpu)
    → IsNested c
    → d.ncli ≡ (pushcli c).ncli
    → d.interrupts ≡ (pushcli c).interrupts
    → d.intena ≡ (pushcli c).intena
    → popcli d ≡ some (restored c d)
unfolding pushcli popcli
popcli-pushcli c d h a b i = ground arith

pushcli_facts :
    (c : Cpu)
    → ((pushcli c).interrupts ≡ false)
      × (((pushcli c).ncli == 0) ≡ false)
      × ((c.ncli == 0) ≡ false → (pushcli c).intena ≡ c.intena)
unfolding pushcli
pushcli_facts c = (refl, ground arith, λ z. ground arith)

-- `n` calls of `pushcli` and then `n` of `popcli`, on a CPU whose interrupts are off if a `pushcli` is
-- open, do not panic and restore the depth and the interrupts, and inside another `pushcli` also the
-- mark of what they were before it.
pub pops-pushes :
    (n : ℕ) (c : Cpu)
    → IsNested c
    → (d : Cpu) × (pops n (pushes n c) ≡ some d)
      × (d.ncli ≡ c.ncli)
      × (d.interrupts ≡ c.interrupts)
      × ((if c.ncli == 0 then c.intena else d.intena) ≡ c.intena)
unfolding pushes pops
pops-pushes zero c h = (c, refl, refl, refl, ground arith)
pops-pushes (suc n) c h =
    let (off, nested, kept) = pushcli_facts c in
    let (d, e, a, b, i) = pops-pushes n (pushcli c) (rw off refl) in
    let mark : d.intena ≡ (pushcli c).intena = rw nested at i in
    (
      restored c d,
      pops_last n (pushes n (pushcli c)) d e ∙ popcli-pushcli c d h a b mark,
      refl,
      refl,
      elim (Bool-cases (c.ncli == 0)) [ inl z ↦ rw z refl | inr z ↦ rw z (mark ∙ kept z) ],
    )
