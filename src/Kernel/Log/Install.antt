-- ===== src/Kernel/Log/Install.antt =====
-- `install_trans` as a sequence of disk writes.
use native.Mathlib.Decide.{ℕ_discrete}
use base_system.Base.{
  ℕ, zero, suc, ◌+◌, ◌≤◌, ◌<◌, ◌≡◌, refl, ◌∙◌, ◌≢◌, false, List, [], ◌∷◌, ◌++◌, arith, get_or,
}
use base_system.Kernel.Action.{Result, ok}
use base_system.Kernel.Bio.{Block, Disk, Cache, latest, disk_read}
use base_system.Kernel.Bio.Wf.{dirty_at}
use base_system.Kernel.Log.{logsize, copy_home, install_from}
use base_system.Kernel.Log.Steps.{IsReady, Stepped}
use base_system.Kernel.Log.Copy.{copy_home_lem}

-- The log is the blocks from `start` on, above the home of every logged block, inside the disk.
pub record Layout (start n : ℕ) (sector : List ℕ) (disksize : ℕ) : Type 0 where
  pub short : n ≤ logsize
  pub region : start + logsize < disksize
  pub homes : (j : ℕ) → j < n → get_or sector j 0 < start

-- The writes of the first `k` rounds, newest first; `block j` is what log block `j` holds.
unfoldable pub home_writes : (ℕ → Block) → List ℕ → ℕ → List (ℕ × Block)
home_writes block sector zero = []
home_writes block sector (suc k) = (get_or sector k 0, block k) ∷ home_writes block sector k

abbrev pub log_block : Disk → ℕ → ℕ → Block
log_block d start j = disk_read d (start + j + 1)

-- The disk `d` after `k` rounds.
abbrev pub installed : Disk → ℕ → List ℕ → ℕ → Disk
installed d start sector k = record d {
  writes = home_writes (log_block d start) sector k ++ d.writes;
}

-- A sector that no round writes keeps its contents.
pub latest-home_writes_ne :
    (image : ℕ → Block) (ws : List (ℕ × Block)) (block : ℕ → Block) (sector : List ℕ) (k s : ℕ)
    → ((j : ℕ) → j < k → get_or sector j 0 ≢ s)
    → latest image (home_writes block sector k ++ ws) s ≡ latest image ws s
unfolding home_writes
latest-home_writes_ne image ws block sector zero s h = refl
latest-home_writes_ne image ws block sector (suc k) s h = ground (
  arith,
  h k (omega arith),
  latest-home_writes_ne image ws block sector k s (λ j l. h j (omega arith)),
)

pub log_block-installed :
    (d : Disk) (start : ℕ) (sector : List ℕ) (k j : ℕ)
    → ((i : ℕ) → i < k → get_or sector i 0 < start)
    → log_block (installed d start sector k) start j ≡ log_block d start j
log_block-installed d start sector k j h =
    latest-home_writes_ne d.image d.writes (log_block d start) sector k (start + j + 1)
      (λ i l. omega (arith, h i l))

-- The cache after some rounds from the disk `d`.
pub record Installed (d : Disk) (start : ℕ) (sector : List ℕ) (k : ℕ) (c : Cache)
    (out : Result (Unit {0}) × Cache) : Type 0 where
  pub returned : out.0 ≡ ok tt
  pub ready : IsReady out.1
  pub disk : out.1.disk ≡ installed d start sector k
  pub clean : (t : ℕ) → dirty_at c t ≡ false → dirty_at out.1 t ≡ false

Stepped-clean :
    (h : ℕ) (v : Block) (c : Cache) (out : Result (Unit {0}) × Cache) (t : ℕ)
    → Stepped h v c out
    → dirty_at c t ≡ false
    → dirty_at out.1 t ≡ false
Stepped-clean h v c out t s e = elim (ℕ_discrete t h) [
  | yes p ↦ rw p s.clean
  | no p ↦ s.others t p ∙ e
]

installed-step :
    (d : Disk) (start : ℕ) (sector : List ℕ) (tail : ℕ) (e : Disk)
    → ((i : ℕ) → i < tail → get_or sector i 0 < start)
    → e ≡ installed d start sector tail
    → (let w : ℕ × Block = (get_or sector tail 0, disk_read e (start + tail + 1)) in
        record e { writes = w ∷ e.writes })
      ≡ installed d start sector (tail + 1)
unfolding home_writes
installed-step d start sector tail e low eq =
    let one_more : tail + 1 ≡ suc tail = omega arith in
    rw eq (rw (log_block-installed d start sector tail tail low) (rw one_more refl))

pub install_from_lem :
    (d : Disk) (start n : ℕ) (sector : List ℕ) (k tail : ℕ) (c : Cache)
    → Layout start n sector d.disksize
    → tail + k ≡ n
    → IsReady c
    → c.disk ≡ installed d start sector tail
    → ((j : ℕ) → j < n → dirty_at c (start + j + 1) ≡ false)
    → Installed d start sector n c (install_from 1 start sector k tail c)
unfolding install_from
install_from_lem d start n sector zero tail c lay e r dk cl = record {
  returned = refl;
  ready = r;
  disk = let e' : tail ≡ n = omega arith in rw (← e') dk;
  clean = λ t h. h;
}
install_from_lem d start n sector (suc k) tail c lay e r dk cl =
    let src = start + tail + 1 in
    let dst = get_or sector tail 0 in
    let low = lay.homes tail (omega arith) in
    let s =
      copy_home_lem src dst c (omega arith) r (ground (arith, lay.region, lay.short, dk))
        (ground (arith, lay.region, dk)) (cl tail (omega arith)) in
    let c' = (copy_home 1 src dst c).1 in
    let dk' : c'.disk ≡ installed d start sector (tail + 1) =
      s.disk ∙ installed-step d start sector tail c.disk (λ i l. lay.homes i (omega arith)) dk in
    let rest =
      install_from_lem d start n sector k (tail + 1) c' lay (omega arith) s.ready dk' (λ j l.
        Stepped-clean dst (disk_read c.disk src) c (copy_home 1 src dst c) (start + j + 1) s
          (cl j l)) in
    rw (s.returned) (record {
      returned = rest.returned;
      ready = rest.ready;
      disk = rest.disk;
      clean = λ t h.
          rest.clean t (Stepped-clean dst (disk_read c.disk src) c (copy_home 1 src dst c) t s h);
    })
