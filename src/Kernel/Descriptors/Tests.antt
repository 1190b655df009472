-- ===== src/Kernel/Descriptors/Tests.antt =====
-- A process with one descriptor.
use base_system.Base.{
  ℕ, zero, suc, ◌≡◌, refl, Option, none, some, List, [], ◌∷◌, ◌++◌, arith, replicate, false, pos,
}
use base_system.Kernel.Action.{ok}
use base_system.Kernel.Pages.Ownership.{count}
use base_system.Kernel.File.{Files, no_file, file_at}
use base_system.Kernel.Descriptors.{
  Task, sys_dup, sys_read, sys_write, sys_lseek, sys_close, sys_fstat, sys_open, free_descriptor,
  fdalloc, dup_file,
}
use base_system.Kernel.Descriptors.Sharing.{dup_all}
use base_system.Kernel.Descriptors.References.{AreHeld, held_of}
use base_system.Kernel.Descriptors.Calls.{AllHeld}
use base_system.Kernel.Descriptors.Opens.{descriptors_lem, fork_lem}
use base_system.Kernel.File.{filedup}

abbrev open_once : Files
open_once = record {
  fs = record { disks = λ dev b i. 0; icache = [] };
  pipes = [];
  table = no_file ∷ record no_file { ref = 1 } ∷ [];
}

abbrev one_descriptor : Task
one_descriptor = record {
  files = open_once;
  ofile = some 1 ∷ replicate 15 none;
  user = record { sz = 100; memory = λ i. 0; esp = 0 };
  caller = record { cwd = 0; uid = 0 };
}

counted_once : (f : ℕ) → (file_at open_once f).ref ≡ count f (1 ∷ [])
unfolding count
counted_once zero = refl
counted_once (suc zero) = refl
counted_once (suc (suc f)) = ground arith

one_descriptor-AllHeld : AllHeld [] one_descriptor
unfolding count
one_descriptor-AllHeld = record { counts = counted_once; inside = λ f p. ground arith }

duplicates_a_descriptor : (dup_file 1 one_descriptor).0 ≡ ok (pos 1)
unfolding dup_file fdalloc free_descriptor filedup
duplicates_a_descriptor = refl

descriptors_lem_example :
    AllHeld [] (sys_dup one_descriptor).1
    × AllHeld [] (sys_read (λ _. none) false one_descriptor).1
    × AllHeld [] (sys_write (λ _. none) false one_descriptor).1
    × AllHeld [] (sys_lseek one_descriptor).1
    × AllHeld [] (sys_close one_descriptor).1
    × AllHeld [] (sys_fstat one_descriptor).1
    × AllHeld [] (sys_open (λ _. none) [] one_descriptor).1
descriptors_lem_example =
    descriptors_lem [] (λ _. none) false [] one_descriptor one_descriptor-AllHeld

fork_lem_example :
    let dup = dup_all one_descriptor.ofile (replicate 16 none) open_once in
    (new : List (Option ℕ)) × (dup.0 ≡ ok new)
    × (new ≡ one_descriptor.ofile)
    × AreHeld (held_of new ++ (1 ∷ [])) dup.1
fork_lem_example = fork_lem [] one_descriptor (replicate 16 none) one_descriptor-AllHeld refl refl
