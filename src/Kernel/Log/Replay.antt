-- ===== src/Kernel/Log/Replay.antt =====
-- Recovery of kernel/log.c after a part of its own installation.
use native.Mathlib.Decide.{ℕ_discrete}
use base_system.Base.{
  ℕ, zero, suc, ◌+◌, ◌-◌, ◌≤◌, ◌<◌, ◌≡◌, refl, ap, ◌∙◌, List, ◌∷◌, ◌++◌, arith, get_or, length,
  drop,
}
use base_system.Kernel.Bio.{Block, Disk, latest}
use base_system.Kernel.Log.Install.{home_writes}

-- The disk with the last `k` writes lost.
abbrev pub crash : ℕ → Disk → Disk
crash k d = record d { writes = drop k d.writes }

module _ (image : ℕ → Block) (block : ℕ → Block) (sector : List ℕ) where
  latest-home_writes_cong :
      (xs ys : List (ℕ × Block)) (s k : ℕ)
      → latest image xs s ≡ latest image ys s
      → latest image (home_writes block sector k ++ xs) s
        ≡ latest image (home_writes block sector k ++ ys) s
  unfolding home_writes
  latest-home_writes_cong xs ys s zero e = e
  latest-home_writes_cong xs ys s (suc k) e = ground (arith, latest-home_writes_cong xs ys s k e)

  -- A sector that some round writes hides what was below.
  latest-home_writes_hit :
      (xs ys : List (ℕ × Block)) (s k j : ℕ)
      → j < k
      → get_or sector j 0 ≡ s
      → latest image (home_writes block sector k ++ xs) s
        ≡ latest image (home_writes block sector k ++ ys) s
  unfolding home_writes
  latest-home_writes_hit xs ys s zero j l e = absurd (omega arith)
  latest-home_writes_hit xs ys s (suc k) j l e = elim (ℕ_discrete j k) [
    | yes p ↦ let e' : get_or sector k 0 ≡ s = rw p at e in ground arith
    | no p ↦ ground (arith, latest-home_writes_hit xs ys s k j (omega arith) e)
  ]

  pub latest_replay :
      (ws : List (ℕ × Block)) (s n k : ℕ)
      → k ≤ n
      → latest image (home_writes block sector n ++ (home_writes block sector k ++ ws)) s
        ≡ latest image (home_writes block sector n ++ ws) s
  latest_replay ws s n zero l = unfold home_writes in refl
  latest_replay ws s n (suc k) l = elim (ℕ_discrete (get_or sector k 0) s) [
    | yes p ↦ latest-home_writes_hit (home_writes block sector (suc k) ++ ws) ws s n k l p
    | no p ↦
        latest-home_writes_cong (home_writes block sector (suc k) ++ ws)
          (home_writes block sector k ++ ws) s n (unfold home_writes in ground arith)
        ∙ latest_replay ws s n k (omega arith)
  ]

  -- Losing the last writes of an installation leaves its first rounds.
  pub drop-home_writes :
      (ws : List (ℕ × Block)) (n j : ℕ)
      → j ≤ n
      → drop j (home_writes block sector n ++ ws) ≡ home_writes block sector (n - j) ++ ws
  unfolding home_writes
  drop-home_writes ws n zero l = let e : n - 0 ≡ n = omega arith in rw e refl
  drop-home_writes ws zero (suc j) l = absurd (omega arith)
  drop-home_writes ws (suc n) (suc j) l =
      let e : suc n - suc j ≡ n - j = omega arith in rw e (drop-home_writes ws n j (omega arith))

  pub length-home_writes : (k : ℕ) → length (home_writes block sector k) ≡ k
  unfolding home_writes
  length-home_writes zero = refl
  length-home_writes (suc k) = ap suc (length-home_writes k)

  pub drop-all :
      (w : ℕ × Block) (ws : List (ℕ × Block)) (n : ℕ)
      → drop (n + 1) (home_writes block sector n ++ w ∷ ws) ≡ ws
  unfolding home_writes
  drop-all w ws zero = refl
  drop-all w ws (suc n) = let e : suc n + 1 ≡ suc (n + 1) = omega arith in rw e (drop-all w ws n)

-- Two runs of home writes agree if their sectors and blocks do.
pub home_writes-cong :
    (f g : ℕ → Block) (xs ys : List ℕ) (n : ℕ)
    → ((j : ℕ) → j < n → f j ≡ g j)
    → ((j : ℕ) → j < n → get_or xs j 0 ≡ get_or ys j 0)
    → home_writes f xs n ≡ home_writes g ys n
unfolding home_writes
home_writes-cong f g xs ys zero p q = refl
home_writes-cong f g xs ys (suc n) p q = rw (p n (omega arith)) (
    rw (q n (omega arith)) (
      rw (home_writes-cong f g xs ys n (λ j l. p j (omega arith)) (λ j l. q j (omega arith))) refl))
