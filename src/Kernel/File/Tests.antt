-- ===== src/Kernel/File/Tests.antt =====
-- A table of two files.
use base_system.Base.{ℕ, zero, suc, ◌≡◌, refl, [], ◌∷◌, arith}
use base_system.Kernel.Pages.Ownership.{count}
use base_system.Kernel.File.{no_file, file_at, filealloc, filedup, unused_file}
use base_system.Kernel.File.Counts.{
  Held, IsCounted, Reach, here, next, allocates, duplicates, Reach-IsCounted,
}

abbrev none_open : Held
none_open = record {
  files = record {
    fs = record { disks = λ dev b i. 0; icache = [] };
    pipes = [];
    table = no_file ∷ no_file ∷ [];
  };
  held = [];
}

abbrev one_open : Held
one_open = record { files = (filealloc none_open.files).1; held = 0 ∷ [] }

abbrev shared : Held
shared = record { files = (filedup 0 one_open.files).1; held = 0 ∷ 0 ∷ [] }

all_unused : (f : ℕ) → (file_at none_open.files f).ref ≡ 0
all_unused zero = refl
all_unused (suc zero) = refl
all_unused (suc (suc f)) = refl

opened : Reach none_open one_open
unfolding unused_file
opened = next here (allocates 0 refl)

duplicated : Reach none_open shared
unfolding count
duplicated = next opened (duplicates 0 (omega arith))

Reach-IsCounted_example : IsCounted shared
Reach-IsCounted_example = Reach-IsCounted none_open shared refl all_unused duplicated
