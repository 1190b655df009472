-- ===== src/Kernel/Pages/Tests.antt =====
-- Three pages behind a small kernel.
use base_system.Base.{◌≤◌, ◌≡◌, refl, false, [], ◌∷◌, arith, if◌then◌else◌}
use base_system.Kernel.Pages.{Kmem, done, free_from, kfree, kalloc, kinit1, pg_round_up}
use base_system.Kernel.Pages.Ownership.{
  count, Pool, allocates, Reach, here, next, IsSound, in_range, Reach-IsSound, kinit1_lem,
}

abbrev zeroed : Kmem
zeroed = record { use_lock = false; freelist = [] }

abbrev stocked : Kmem
stocked = record { use_lock = false; freelist = 0x80103000 ∷ 0x80102000 ∷ 0x80101000 ∷ [] }

stocked_eq : kinit1 0x80100800 4 0x80100800 0x80104000 zeroed ≡ done stocked
unfolding kinit1 free_from kfree
stocked_eq = refl

kinit1_lem_example :
    (k' : Kmem) × (kinit1 0x80100800 4 0x80100800 0x80104000 zeroed ≡ done k')
    × (count 0x80102000 k'.freelist
        ≡ (if in_range (pg_round_up 0x80100800) 0x80104000 0x80102000 then 1 else 0))
    × IsSound 0x80100800 (record { kmem = k'; held = [] })
kinit1_lem_example =
    kinit1_lem 0x80100800 4 0x80100800 0x80104000 false 0x80102000 (omega arith) (omega arith)
      (omega arith) (omega arith) (omega arith) (omega arith)

-- One page is held, two are free.
abbrev in_use : Pool
in_use = record {
  kmem = record { use_lock = false; freelist = 0x80102000 ∷ 0x80101000 ∷ [] };
  held = 0x80103000 ∷ [];
}

-- Another one is given out.
abbrev in_use_later : Pool
in_use_later = record {
  kmem = record { use_lock = false; freelist = 0x80101000 ∷ [] };
  held = 0x80102000 ∷ 0x80103000 ∷ [];
}

in_use-IsSound : IsSound 0x80100800 in_use
unfolding count
in_use-IsSound = record { once = λ v. ground arith; accepted = λ v m. ground arith }

run : Reach 0x80100800 in_use in_use_later
unfolding kalloc
run = next {q = in_use} here (allocates 0x80102000 refl refl)

Reach-IsSound_example : IsSound 0x80100800 in_use_later
Reach-IsSound_example = Reach-IsSound run in_use-IsSound

held_once : 1 ≤ count 0x80103000 in_use.held
unfolding count
held_once = omega arith
