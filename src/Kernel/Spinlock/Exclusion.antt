-- ===== src/Kernel/Spinlock/Exclusion.antt =====
-- The CPUs at a lock of kernel/spinlock.c.
use base_system.Base.{ℕ, ◌≡◌, refl, Bool, true, false, arith}
use base_system.Kernel.Spinlock.{
  Phase, outside, spinning, inside, Machine, xchg, holding, is_cpu, Step, starts, spins, enters,
  records, clears, unlocks, Reach, here, next,
}

-- From the `xchg` of `acquire` to the one of `release`.
abbrev pub in_critical : Phase → Bool
in_critical outside = false
in_critical spinning = false
in_critical _ = true

abbrev pub is_inside : Phase → Bool
is_inside inside = true
is_inside _ = false

-- One CPU at most has the lock, the lock is taken then, and it names the CPU that has recorded itself.
pub record IsExclusive (s : Machine) : Type 0 where
  pub one : (i j : ℕ) → in_critical (s.phase i) ≡ true → in_critical (s.phase j) ≡ true → i ≡ j
  pub taken : (i : ℕ) → in_critical (s.phase i) ≡ true → s.lock.locked ≡ true
  pub owner : (i : ℕ) → is_inside (s.phase i) ≡ is_cpu i s.lock.cpu

Step-IsExclusive : (s t : Machine) → Step s t → IsExclusive s → IsExclusive t
unfolding xchg holding
Step-IsExclusive s t (starts i p g e) h = rw e (record {
  one = λ a b x y. h.one a b (ground arith) (ground arith);
  taken = λ a x. h.taken a (ground arith);
  owner = λ a. ground (arith, h.owner a);
})
Step-IsExclusive s t (spins i p g e) h =
    rw e (record { one = h.one; taken = λ a x. refl; owner = h.owner })
Step-IsExclusive s t (enters i p g e) h = rw e (record {
  one = λ a b x y. ground (arith, h.taken a, h.taken b);
  taken = λ a x. refl;
  owner = λ a. ground (arith, h.owner a);
})
Step-IsExclusive s t (records i p e) h = rw e (record {
  one = λ a b x y. h.one a b (ground arith) (ground arith);
  taken = λ a x. h.taken a (ground arith);
  owner = λ a. ground (arith, h.owner a, h.one a i);
})
Step-IsExclusive s t (clears i p g e) h = rw e (record {
  one = λ a b x y. h.one a b (ground arith) (ground arith);
  taken = λ a x. h.taken a (ground arith);
  owner = λ a. ground (arith, h.owner a, h.one a i);
})
Step-IsExclusive s t (unlocks i p e) h = rw e (record {
  one = λ a b x y. h.one a b (ground arith) (ground arith);
  taken = λ a x. ground (arith, h.one a i);
  owner = λ a. ground (arith, h.owner a);
})

-- However the CPUs' accesses to a lock interleave, one CPU at most is between the `xchg` of its
-- `acquire` and the `xchg` of its `release`, the lock is taken then, and its field `cpu` names exactly
-- the CPU that is inside.
pub Reach-IsExclusive : {s t : Machine} → Reach s t → IsExclusive s → IsExclusive t
Reach-IsExclusive here h = h
Reach-IsExclusive (next {t} {u} r st) h = Step-IsExclusive t u st (Reach-IsExclusive r h)

-- `holding` tells the truth: it is 1 exactly on the CPU that is inside.
pub holding_lem : (s : Machine) (i : ℕ) → IsExclusive s → holding i s.lock ≡ is_inside (s.phase i)
unfolding holding
holding_lem s i h = ground (arith, h.owner i, h.taken i)
