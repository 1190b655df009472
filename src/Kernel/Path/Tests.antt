-- ===== src/Kernel/Path/Tests.antt =====
-- The path of a file in a directory.
use base_system.Base.{ℕ, ◌≡◌, refl, some, List, ◌++◌, codes, replicate}
use base_system.Kernel.Path.{skipelem}
use base_system.Kernel.Path.Elements.{NoZero, Skipped, skipelem_lem}

abbrev path : List ℕ
path = codes "///a//bb"

abbrev buffer : List ℕ
buffer = replicate 14 0

first_element : skipelem path buffer ≡ some (codes "bb", codes "a" ++ replicate 13 0)
unfolding skipelem
first_element = refl

path-NoZero : NoZero path
path-NoZero = (refl, (refl, (refl, (refl, (refl, (refl, (refl, (refl, tt))))))))

skipelem_lem_example : Skipped path (skipelem path buffer)
skipelem_lem_example = skipelem_lem path buffer path-NoZero refl
