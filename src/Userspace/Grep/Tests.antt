-- ===== src/Userspace/Grep/Tests.antt =====
-- Patterns with a star, an anchor and a dot.
use base_system.Base.{◌≡◌, refl, ◌↔◌, true, false, codes}
use base_system.Userspace.Grep.{match}
use base_system.Userspace.Grep.Language.{Selects, match_iff}

starred : match (codes "a*b$") (codes "xaab") ≡ true
unfolding match
starred = refl

anchored : match (codes "^a.c") (codes "xabc") ≡ false
unfolding match
anchored = refl

match_iff_example :
    (match (codes "a*b$") (codes "xaab") ≡ true) ↔ Selects (codes "a*b$") (codes "xaab")
match_iff_example = match_iff (codes "a*b$") (codes "xaab")
