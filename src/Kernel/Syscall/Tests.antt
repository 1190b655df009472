-- ===== src/Kernel/Syscall/Tests.antt =====
-- A process with a pointer argument to a string in its memory.
use base_system.Base.{
  ◌+◌, ◌-◌, ◌^◌, ◌≤◌, ◌<◌, ◌≡◌, ◌↔◌, refl, some, codes, ◌∷◌, [], ◌++◌, get_or, arith, ◌==◌,
  if◌then◌else◌,
}
use base_system.Kernel.Syscall.{User, argint, fetchint, argptr}
use base_system.Kernel.Syscall.Bounds.{argptr_iff, argptr_negative}

abbrev user : User
user = record {
  sz = 200;
  memory = λ i. if i == 104 then 50 else get_or (codes "hi" ++ (0 ∷ [])) (i - 50) 0;
  esp = 100;
}

first_argument : argint user 0 ≡ some 50
unfolding argint fetchint
first_argument = refl

argptr_iff_example : (argptr user 0 150 ≡ some 50) ↔ ((50 < 200) × (50 + 150 ≤ 200))
argptr_iff_example = argptr_iff user 0 150 50 first_argument (omega arith)

argptr_negative_example : argptr user 0 (2 ^ 32 - 1) ≡ some 50
argptr_negative_example =
    argptr_negative user 0 50 1 first_argument (omega arith) (omega arith) (omega arith)
      (omega arith)
