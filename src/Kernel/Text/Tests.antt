-- ===== src/Kernel/Text/Tests.antt =====
-- Overlapping moves, and the copies of a short text.
use base_system.Base.{
  ◌+◌, ◌-◌, ◌<◌, ◌≡◌, refl, ◌&&◌, arith, leb, ltb, if◌then◌else◌, get_or, length, codes,
}
use base_system.Kernel.Text.{Memory, memmove, safestrcpy}
use base_system.Kernel.Text.Strings.{c_text, safestrcpy_lem}

-- The text "init" at 0, and zeros.
abbrev memory : Memory
memory i = get_or (codes "init") i 0

overlapping : c_text 9 (memmove 2 0 4 memory) 0 ≡ codes "ininit"
unfolding memmove c_text
overlapping = refl

safestrcpy_lem_example :
    let text = c_text (4 - 1) memory 0 in
    let m' = safestrcpy 16 0 4 memory in
    (c_text 4 m' 16 ≡ text)
    × (m' (16 + length text) ≡ 0)
    × (length text < 4)
    × (m' 40 ≡ (if leb 16 40 && ltb 40 (16 + 4) then m' 40 else memory 40))
safestrcpy_lem_example = safestrcpy_lem 16 0 4 memory 40 (omega arith) refl
